-- ===== src/Caps.antt =====
-- sources/ipc.cpp `verifyExecCaps` and `clientHasCapabilityFor` of sources/server/application.cpp:
-- the bit mask of operations that a client may request. A `uint8_t` is a number below 256.
pub mod ExecFunFlags
pub mod Laws
pub mod Tests
use ExecFunFlags
use inter_process_communicat.Base.{
  ℕ, ◌-◌, ◌<◌, ◌≡◌, bit_and, bit_or, Bool, true, false, not, ◌&&◌, Option, none, some, ltb, ◌==◌,
  if◌then◌else◌,
}
use inter_process_communicat.Protocol.{
  MathOp, math_add, math_sub, math_mul, math_div, math_unnamed, StrOp, str_concat, str_find_start,
  str_unnamed, Payload, payload_not_set, math, str,
}

abbrev pub all_exec_fun_flags : ℕ
all_exec_fun_flags = bit_or ExecFunFlags.add (
    bit_or ExecFunFlags.sub (
      bit_or ExecFunFlags.mult
        (bit_or ExecFunFlags.div (bit_or ExecFunFlags.concat ExecFunFlags.find_start))))

-- `~` of a `uint8_t`, as far as the low eight bits.
abbrev pub complement8 : ℕ → ℕ
complement8 n = 255 - n

unfoldable pub verify_exec_caps : ℕ → Bool
verify_exec_caps flags = (bit_and flags (complement8 all_exec_fun_flags) == 0) && ltb 0 flags

-- The flag that an operation wants; `none` where the switch returns false.
unfoldable pub math_required : MathOp → Option ℕ
math_required math_add = some ExecFunFlags.add
math_required math_sub = some ExecFunFlags.sub
math_required math_mul = some ExecFunFlags.mult
math_required math_div = some ExecFunFlags.div
math_required (math_unnamed n) = none

unfoldable pub str_required : StrOp → Option ℕ
str_required str_concat = some ExecFunFlags.concat
str_required str_find_start = some ExecFunFlags.find_start
str_required (str_unnamed n) = none

unfoldable pub required : Payload → Option ℕ
unfolding math_required str_required
required payload_not_set = none
required (math args) = math_required args.op
required (str args) = str_required args.op

unfoldable pub client_has_capability_for : Payload → ℕ → Bool
unfolding required
client_has_capability_for payload caps = elim (required payload) [
  | none ↦ false
  | some flag ↦ not (bit_and caps flag == 0)
]
