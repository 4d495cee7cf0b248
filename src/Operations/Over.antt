-- ===== src/Operations/Over.antt =====
-- The status that a request is executed to.
use inter_process_communicat.Base.{
  ◌≡◌, ◌≢◌, inl, inr, Bool-cases, Option-cases, defined, >>=-eq-defined, transfer, if_keeps, ltb,
  ◌==◌, ◌++◌, length,
}
use inter_process_communicat.Base.Int.{ℤ, abs_ℕ, ◌+ℤ◌, ◌-ℤ◌, ◌*ℤ◌, quot_ℤ}
use inter_process_communicat.Protocol.{
  Bytes, Status, st_not_finished, MathOp, math_add, math_sub, math_mul, math_div, math_unnamed,
  StrOp, str_concat, str_find_start, str_unnamed, Result, value_not_set, Payload, payload_not_set,
  math, str,
}
use inter_process_communicat.Operations.{
  int32, set_int_result, math_case, run_math, find, report_position, str_case, run_str, execute,
}

-- No request is executed to NOT_FINISHED.
abbrev pub IsOver : Status × Result → Type 0
IsOver x = x.0 ≢ st_not_finished

set_int_result-IsOver : (v : ℤ) {x : Status × Result} → set_int_result v ≡ defined x → IsOver x
unfolding set_int_result
set_int_result-IsOver v h =
    let (y, _, e) = >>=-eq-defined (int32 v) _ h in transfer IsOver e (λ e. cc)

math_case-IsOver :
    (op : MathOp) (a b : ℤ) (old : Result) {x : Status × Result}
    → math_case op a b old ≡ defined x
    → IsOver x
unfolding math_case
math_case-IsOver math_add a b old h = set_int_result-IsOver (a +ℤ b) h
math_case-IsOver math_sub a b old h = set_int_result-IsOver (a -ℤ b) h
math_case-IsOver math_mul a b old h = set_int_result-IsOver (a *ℤ b) h
math_case-IsOver math_div a b old h = elim (Bool-cases (abs_ℕ b == 0)) [
  | inl zero ↦ transfer IsOver (rw zero at h) (λ e. cc)
  | inr other ↦ set_int_result-IsOver (quot_ℤ a b) (rw other at h)
]
math_case-IsOver (math_unnamed n) a b old h = transfer IsOver h (λ e. cc)

str_case-IsOver : (op : StrOp) (s1 s2 : Bytes) (old : Result) → IsOver (str_case op s1 s2 old)
unfolding str_case report_position
str_case-IsOver str_concat s1 s2 old =
    if_keeps IsOver (ltb 32 (length (s1 ++ s2))) _ _ (λ e. cc) (λ e. cc)
str_case-IsOver str_find_start s1 s2 old = elim (Option-cases (find s1 s2)) [
  | inl e ↦ λ h. cc
  | inr (i, e) ↦ λ h. cc
]
str_case-IsOver (str_unnamed n) s1 s2 old = λ e. cc

pub execute-IsOver : (p : Payload) {x : Status × Result} → execute p ≡ defined x → IsOver x
unfolding execute run_math run_str
execute-IsOver payload_not_set h = transfer IsOver h (λ e. cc)
execute-IsOver (math args) h = math_case-IsOver args.op args.a args.b value_not_set h
execute-IsOver (str args) h =
    transfer IsOver h (str_case-IsOver args.op args.s1 args.s2 value_not_set)
