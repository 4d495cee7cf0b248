-- ===== src/Operations/Tests.antt =====
-- The operations on concrete requests.
use inter_process_communicat.Base.{◌≡◌, refl, ◌↔◌, arith, [], ◌∷◌, ◌++◌, undefined, defined}
use inter_process_communicat.Base.Int.{pos, negsuc, int32_min, ◌+ℤ◌, quot_ℤ}
use inter_process_communicat.Protocol.{
  Bytes, MathArgs, math_add, math_div, str_concat, str_find_start, st_success, st_error_div_by_zero,
  value_not_set, int_result, position, str_result, Payload, str,
}
use inter_process_communicat.Operations.{
  int32, set_int_result, math_case, run_math, starts_with, find_from, find, report_position,
  str_case, run_str, execute,
}
use inter_process_communicat.Operations.Total.{run_math_div-undefined_iff, run_math-succeeds}
use inter_process_communicat.Operations.Text.{Located, run_str_find-Located}
use inter_process_communicat.Operations.Limits.{IsBounded, execute-IsBounded}

abbrev minus_seven_by_two : MathArgs
minus_seven_by_two = record { op = math_div; a = negsuc 6; b = pos 2 }

minus_seven_by_two-value :
    run_math minus_seven_by_two value_not_set ≡ defined (st_success, int_result (negsuc 2))
unfolding run_math math_case set_int_result int32 quot_ℤ
minus_seven_by_two-value = refl

abbrev one_by_zero : MathArgs
one_by_zero = record { op = math_div; a = pos 1; b = pos 0 }

one_by_zero-value :
    run_math one_by_zero value_not_set ≡ defined (st_error_div_by_zero, value_not_set)
unfolding run_math math_case
one_by_zero-value = refl

abbrev too_much : MathArgs
too_much = record { op = math_add; a = pos 2_147_483_647; b = pos 1 }

too_much-value : run_math too_much value_not_set ≡ undefined
unfolding run_math math_case set_int_result int32 ◌+ℤ◌
too_much-value = refl

-- "banana" and "nan".
abbrev banana : Bytes
banana = 98 ∷ 97 ∷ 110 ∷ 97 ∷ 110 ∷ 97 ∷ []

abbrev nan : Bytes
nan = 110 ∷ 97 ∷ 110 ∷ []

nan_in_banana :
    run_str (record { op = str_find_start; s1 = banana; s2 = nan }) value_not_set
    ≡ (st_success, position (pos 2))
unfolding run_str str_case find find_from starts_with report_position
nan_in_banana = refl

banana-nan :
    run_str (record { op = str_concat; s1 = banana; s2 = nan }) value_not_set
    ≡ (st_success, str_result (banana ++ nan))
unfolding run_str str_case
banana-nan = refl

run_math_div-undefined_iff_example :
    (run_math (record { op = math_div; a = int32_min; b = negsuc 0 }) value_not_set ≡ undefined)
    ↔ ((int32_min ≡ int32_min) × (negsuc 0 ≡ negsuc 0))
run_math_div-undefined_iff_example =
    run_math_div-undefined_iff int32_min (negsuc 0) value_not_set (ground arith) (ground arith)

run_math-succeeds_example :
    run_math minus_seven_by_two value_not_set ≡ defined (st_success, int_result (negsuc 2))
run_math-succeeds_example =
    run_math-succeeds minus_seven_by_two value_not_set (negsuc 2) (1, refl, omega arith, refl)
      (ground arith)

run_str_find-Located_example :
    Located banana nan value_not_set
      (run_str (record { op = str_find_start; s1 = banana; s2 = nan }) value_not_set)
run_str_find-Located_example = run_str_find-Located banana nan value_not_set (omega arith)

abbrev banana_request : Payload
banana_request = str (record { op = str_concat; s1 = banana; s2 = nan })

banana_request-value : execute banana_request ≡ defined (st_success, str_result (banana ++ nan))
unfolding execute run_str str_case
banana_request-value = refl

execute-IsBounded_example : IsBounded (str_result (banana ++ nan))
execute-IsBounded_example = execute-IsBounded banana_request banana_request-value
