-- ===== src/Errors/Laws.antt =====
-- Which statuses pass for a success.
use inter_process_communicat.Base.{ℕ, ◌≡◌, ◌≢◌, refl, ◌↔◌, ◌⊎◌, inl, inr, Option, none, some, arith}
use inter_process_communicat.Base.Int.{ℤ, pos, negsuc}
use inter_process_communicat.Protocol.{
  Status, st_success, st_error_invalid_input, st_error_div_by_zero, st_error_substr_not_found,
  st_error_string_too_long, st_error_internal, st_not_finished, st_unnamed, ec_success,
}
use inter_process_communicat.Errors.{
  Checked, zmq_send, ipc, regular, handle_ipc_error, handle_zmq_send_error, handle_regular_error,
  error_check,
}

abbrev pub Passes : Checked → Type 0
Passes (zmq_send status) = status ≢ none
Passes (ipc status) = (status ≡ st_success) ⊎ (status ≡ st_not_finished) ⊎ (status ≡ st_unnamed 0)
Passes (regular status) = status ≡ ec_success

ipc-Passes : (status : Status) → (handle_ipc_error status ≡ ec_success) ↔ Passes (ipc status)
unfolding handle_ipc_error
ipc-Passes st_success = ((λ e. inl refl), (λ p. refl))
ipc-Passes st_not_finished = ((λ e. inr (inl refl)), (λ p. refl))
ipc-Passes st_error_invalid_input = ground arith
ipc-Passes st_error_div_by_zero = ground arith
ipc-Passes st_error_substr_not_found = ground arith
ipc-Passes st_error_string_too_long = ground arith
ipc-Passes st_error_internal = ground arith
ipc-Passes (st_unnamed n) = ground arith

regular-Passes : (status : ℤ) → (handle_regular_error status ≡ ec_success) ↔ Passes (regular status)
unfolding handle_regular_error
regular-Passes (pos n) = ground arith
regular-Passes (negsuc n) = ground arith

send-Passes :
    (status : Option ℕ) → (handle_zmq_send_error status ≡ ec_success) ↔ Passes (zmq_send status)
unfolding handle_zmq_send_error
send-Passes none = ((λ e. absurd (ground arith)), (λ p. absurd (p refl)))
send-Passes (some n) = ((λ e g. cc), (λ p. refl))

-- A check reports EC_SUCCESS exactly for a send that took bytes, for the code EC_SUCCESS, and of the
-- statuses of the protocol for SUCCESS, for NOT_FINISHED, and for an unnamed status of number 0.
pub error_check_iff : (c : Checked) → (error_check c ≡ ec_success) ↔ Passes c
unfolding error_check
error_check_iff (zmq_send status) = send-Passes status
error_check_iff (ipc status) = ipc-Passes status
error_check_iff (regular status) = regular-Passes status
