-- ===== src/Runner/Ids.antt =====
-- Ticket numbers: the clock above, the count of requests in the low 16 bits.
use inter_process_communicat.Base.{ℕ, ◌+◌, ◌*◌, ◌%◌, ◌^◌, ◌<◌, ◌≡◌, ◌≢◌, ◌↔◌, arith}
use inter_process_communicat.Base.Bits.{bit_or-eq-add}
use inter_process_communicat.Runner.Submit.{ticket_id}

shifted : (ts : ℕ) → ts * 2 ^ 16 % 2 ^ 64 ≡ ts % 2 ^ 48 * 2 ^ 16
shifted ts = omega arith

-- A ticket holds the low 48 bits of the clock above the low 16 bits of the count.
pub ticket_id-fields : (ts seq : ℕ) → ticket_id ts seq ≡ ts % 2 ^ 48 * 2 ^ 16 + seq % 2 ^ 16
unfolding ticket_id
ticket_id-fields ts seq =
    rw (shifted ts) (bit_or-eq-add 16 (ts % 2 ^ 48) (seq % 2 ^ 16) (omega arith))

-- Two requests get the same ticket exactly when their clocks agree in the low 48 bits, and their counts
-- in the low 16.
pub ticket_id-eq_iff :
    (ts seq ts' seq' : ℕ)
    → (ticket_id ts seq ≡ ticket_id ts' seq')
      ↔ ((ts % 2 ^ 48 ≡ ts' % 2 ^ 48) × (seq % 2 ^ 16 ≡ seq' % 2 ^ 16))
ticket_id-eq_iff ts seq ts' seq' = (
  (λ e. omega (arith, ticket_id-fields ts seq, ticket_id-fields ts' seq')),
  (λ e. omega (arith, ticket_id-fields ts seq, ticket_id-fields ts' seq')),
)

-- Of 65536 successive requests no two have the same ticket, whatever the clock does, also where the
-- 64-bit counter wraps.
pub ticket_id-distinct :
    (ts ts' seq k : ℕ) → 0 < k → k < 2 ^ 16 → ticket_id ts seq ≢ ticket_id ts' ((seq + k) % 2 ^ 64)
ticket_id-distinct ts ts' seq k lo hi e =
    omega (arith, (ticket_id-eq_iff ts seq ts' ((seq + k) % 2 ^ 64)).0 e)
