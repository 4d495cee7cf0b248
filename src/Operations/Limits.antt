-- ===== src/Operations/Limits.antt =====
-- Bounds on every result that the server computes.
use inter_process_communicat.Base.{
  ℕ, ◌≤◌, ◌≡◌, sym, subst, inl, inr, Bool-cases, ltb, ◌++◌, arith, defined, length, Option-cases,
}
use inter_process_communicat.Base.Int.{IsInt32, to_int32}
use inter_process_communicat.Protocol.{
  Bytes, st_success, StrOp, str_concat, str_find_start, str_unnamed, Result, value_not_set,
  int_result, position, str_result, Payload, payload_not_set, math, str,
}
use inter_process_communicat.Operations.{find, report_position, str_case, run_str, execute}
use inter_process_communicat.Operations.Math.{run_math-exact}

-- A value that fits its field of the message, a text with at most 32 bytes.
abbrev pub IsBounded : Result → Type 0
IsBounded value_not_set = ⊥
IsBounded (int_result v) = IsInt32 v
IsBounded (position v) = IsInt32 v
IsBounded (str_result s) = length s ≤ 32

to_int32-IsInt32 : (n : ℕ) → IsInt32 (to_int32 n)
to_int32-IsInt32 n = ground arith

str_case-IsBounded :
    (op : StrOp) (s1 s2 : Bytes) (out r : Result)
    → str_case op s1 s2 out ≡ (st_success, r)
    → IsBounded r
unfolding str_case report_position
str_case-IsBounded str_concat s1 s2 out r h = elim (Bool-cases (ltb 32 (length (s1 ++ s2)))) [
  | inl long ↦ absurd (ground arith)
  | inr short ↦ let e : str_result (s1 ++ s2) ≡ r = ground arith in subst IsBounded e (ground arith)
]
str_case-IsBounded str_find_start s1 s2 out r h = elim (Option-cases (find s1 s2)) [
  | inl e ↦ absurd (cc)
  | inr (i, e) ↦
      let same : position (to_int32 i) ≡ r = cc in subst IsBounded same (to_int32-IsInt32 i)
]
str_case-IsBounded (str_unnamed n) s1 s2 out r h = cc

-- A request that the server executes with success yields a value, within the range of its field, and
-- a text of at most 32 bytes.
pub execute-IsBounded :
    (p : Payload) {r : Result} → execute p ≡ defined (st_success, r) → IsBounded r
unfolding execute run_str
execute-IsBounded payload_not_set h = cc
execute-IsBounded (math args) h =
    let c = run_math-exact args value_not_set h in subst IsBounded (sym c.stored) c.in_range
execute-IsBounded (str args) {r} h = str_case-IsBounded args.op args.s1 args.s2 value_not_set r (cc)
