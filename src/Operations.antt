-- ===== src/Operations.antt =====
-- sources/server/algorithm_runner.cpp: what the server computes, `runMath` and `runStr`, and the part
-- of `workerLoop` that picks one of them. `response` is the message that the C++ code writes to; it
-- comes back with the status. `undefined` is a signed overflow.
pub mod Math
pub mod Total
pub mod Over
pub mod Text
pub mod Limits
pub mod Tests
use inter_process_communicat.Base.{
  ℕ, zero, suc, ◌+◌, ◌≡◌, refl, Bool, true, false, ◌&&◌, Option, none, some, List, [], ◌∷◌, ◌++◌,
  Outcome, undefined, defined, ◌>>=◌, ltb, ◌==◌, if◌then◌else◌, length,
}
use inter_process_communicat.Base.Int.{ℤ, ◌+ℤ◌, ◌-ℤ◌, ◌*ℤ◌, quot_ℤ, fits_int32, to_int32, abs_ℕ}
use inter_process_communicat.Protocol.{
  Bytes, MathOp, math_add, math_sub, math_mul, math_div, math_unnamed, StrOp, str_concat,
  str_find_start, str_unnamed, Status, st_success, st_error_invalid_input, st_error_div_by_zero,
  st_error_substr_not_found, st_error_string_too_long, MathArgs, StrArgs, Result, value_not_set,
  int_result, position, str_result, Payload, payload_not_set, math, str,
}

-- The value of a signed expression whose exact value is `v`.
unfoldable pub int32 : ℤ → Outcome ℤ
int32 v = if fits_int32 v then defined v else undefined

-- `response.set_int_result(v); break;`, up to the return at the end of `runMath`.
unfoldable pub set_int_result : ℤ → Outcome (Status × Result)
unfolding int32
set_int_result v = do x ← int32 v; defined (st_success, int_result x)

unfoldable pub math_case : MathOp → ℤ → ℤ → Result → Outcome (Status × Result)
unfolding set_int_result
math_case math_add a b response = set_int_result (a +ℤ b)
math_case math_sub a b response = set_int_result (a -ℤ b)
math_case math_mul a b response = set_int_result (a *ℤ b)
math_case math_div a b response =
    if abs_ℕ b == 0 then defined (st_error_div_by_zero, response) else set_int_result (quot_ℤ a b)
math_case (math_unnamed n) a b response = defined (st_error_invalid_input, response)

unfoldable pub run_math : MathArgs → Result → Outcome (Status × Result)
unfolding math_case
run_math request response = math_case request.op request.a request.b response

-- Whether `s` begins with `t`.
pub starts_with : Bytes → Bytes → Bool
starts_with s [] = true
starts_with [] (y ∷ t) = false
starts_with (x ∷ s) (y ∷ t) = (x == y) && starts_with s t

-- `std::string::find`: the first position at which `t` stands in `s`; `none` is `npos`.
pub find_from : ℕ → Bytes → Bytes → Option ℕ
find_from i [] t = if starts_with [] t then some i else none
find_from i (x ∷ s) t = if starts_with (x ∷ s) t then some i else find_from (suc i) s t

pub find : Bytes → Bytes → Option ℕ
find s t = find_from 0 s t

abbrev pub max_concat : ℕ
max_concat = 32

-- The answer of STR_FIND_START, from what `find` returned.
pub report_position : Option ℕ → Result → Status × Result
report_position none response = (st_error_substr_not_found, response)
report_position (some i) response = (st_success, position (to_int32 i))

pub str_case : StrOp → Bytes → Bytes → Result → Status × Result
str_case str_concat s1 s2 response =
    let r = s1 ++ s2 in
    if ltb max_concat (length r)
    then (st_error_string_too_long, response)
    else (st_success, str_result r)
str_case str_find_start s1 s2 response = report_position (find s1 s2) response
str_case (str_unnamed n) s1 s2 response = (st_error_invalid_input, response)

pub run_str : StrArgs → Result → Status × Result
unfolding str_case
run_str request response = str_case request.op request.s1 request.s2 response

-- One round of `workerLoop` on a payload, into a new `Result`.
unfoldable pub execute : Payload → Outcome (Status × Result)
execute payload_not_set = defined (st_error_invalid_input, value_not_set)
execute (math args) = run_math args value_not_set
execute (str args) = defined (run_str args value_not_set)
