-- ===== src/Operations/Math.antt =====
-- `runMath` and the exact results of its operations.
use native.Mathlib.Nat.{div-add-mod}
use inter_process_communicat.Base.{
  ℕ, suc, ◌+◌, ◌*◌, ◌/◌, ◌%◌, ◌<◌, ◌≡◌, refl, arith, undefined, defined, inl, inr, ◌==◌, Bool-cases,
}
use inter_process_communicat.Base.Int.{
  ℤ, pos, negsuc, sub_ℕ, pos_part, neg_part, ◌+ℤ◌, ◌-ℤ◌, ◌*ℤ◌, quot_ℤ, fits_int32, IsInt32, abs_ℕ,
  fits_int32→IsInt32, IsInt32→fits_int32,
}
use inter_process_communicat.Protocol.{
  MathOp, math_add, math_sub, math_mul, math_div, math_unnamed, st_success, MathArgs, Result,
  int_result,
}
use inter_process_communicat.Operations.{set_int_result, math_case, run_math}

-- The sign of the quotient.
abbrev pub QuotSign : ℤ → ℤ → ℤ → Type 0
QuotSign (pos m) (pos n) v = neg_part v ≡ 0
QuotSign (pos m) (negsuc n) v = pos_part v ≡ 0
QuotSign (negsuc m) (pos n) v = pos_part v ≡ 0
QuotSign (negsuc m) (negsuc n) v = neg_part v ≡ 0

-- `v` is the sum, the difference, the product, or the quotient rounded towards zero, of a and b.
abbrev pub Exact : MathOp → ℤ → ℤ → ℤ → Type 0
Exact math_add a b v = pos_part v + neg_part a + neg_part b ≡ neg_part v + pos_part a + pos_part b
Exact math_sub a b v = pos_part v + neg_part a + pos_part b ≡ neg_part v + pos_part a + neg_part b
Exact math_mul a b v =
    pos_part v + (pos_part a * neg_part b + neg_part a * pos_part b)
    ≡ neg_part v + (pos_part a * pos_part b + neg_part a * neg_part b)
Exact math_div a b v = (r : ℕ) × (abs_ℕ a ≡ abs_ℕ v * abs_ℕ b + r) × (r < abs_ℕ b) × QuotSign a b v
Exact (math_unnamed n) a b v = ⊥

add-Exact : (a b : ℤ) → Exact math_add a b (a +ℤ b)
unfolding ◌+ℤ◌
add-Exact a b = ground arith

sub-Exact : (a b : ℤ) → Exact math_sub a b (a -ℤ b)
unfolding ◌-ℤ◌
sub-Exact a b = ground arith

mul-Exact : (a b : ℤ) → Exact math_mul a b (a *ℤ b)
unfolding ◌*ℤ◌
mul-Exact a b = ground arith

abs-neg : (k : ℕ) → abs_ℕ (sub_ℕ 0 k) ≡ k
abs-neg k = ground arith

quotient : (m n k : ℕ) → k ≡ m / n → m ≡ k * n + m % n
quotient m n k e = rw e (omega (arith, div-add-mod m n))

quot-Exact : (a b : ℤ) → 0 < abs_ℕ b → Exact math_div a b (quot_ℤ a b)
unfolding quot_ℤ
quot-Exact (pos m) (pos n) h = (m % n, omega (arith, quotient m n (m / n) refl), omega arith, refl)
quot-Exact (pos m) (negsuc n) h = (
  m % suc n,
  omega (arith, quotient m (suc n) _ (abs-neg (m / suc n))),
  omega arith,
  ground arith,
)
quot-Exact (negsuc m) (pos n) h = (
  suc m % n,
  omega (arith, quotient (suc m) n _ (abs-neg (suc m / n))),
  omega arith,
  ground arith,
)
quot-Exact (negsuc m) (negsuc n) h =
    (suc m % suc n, omega (arith, quotient (suc m) (suc n) (suc m / suc n) refl), omega arith, refl)

-- The message holds the exact result, which is in range.
pub record Computed (op : MathOp) (a b : ℤ) (r : Result) : Type 0 where
  pub value : ℤ
  pub stored : r ≡ int_result value
  pub in_range : IsInt32 value
  pub exact : Exact op a b value

int32-Computed :
    (op : MathOp) (a b v : ℤ) {r : Result}
    → Exact op a b v
    → set_int_result v ≡ defined (st_success, r)
    → Computed op a b r
unfolding set_int_result
int32-Computed op a b v x h = elim (Bool-cases (fits_int32 v)) [
  | inl fits ↦ record {
    value = v;
    stored = ground arith;
    in_range = fits_int32→IsInt32 v fits;
    exact = x;
  }
  | inr over ↦ absurd (ground arith)
]

math_case-Computed :
    (op : MathOp) (a b : ℤ) (out : Result) {r : Result}
    → math_case op a b out ≡ defined (st_success, r)
    → Computed op a b r
unfolding math_case
math_case-Computed math_add a b out h = int32-Computed math_add a b _ (add-Exact a b) h
math_case-Computed math_sub a b out h = int32-Computed math_sub a b _ (sub-Exact a b) h
math_case-Computed math_mul a b out h = int32-Computed math_mul a b _ (mul-Exact a b) h
math_case-Computed math_div a b out h = elim (Bool-cases (abs_ℕ b == 0)) [
  | inl zero_b ↦ absurd (ground arith)
  | inr ok ↦ int32-Computed math_div a b _ (quot-Exact a b (ground arith)) (rw ok at h)
]
math_case-Computed (math_unnamed n) a b out h = cc

-- Whatever `runMath` reports as a success is an `int_result` in the range of `int32_t`, and is the
-- exact sum, difference, product, or quotient rounded towards zero.
pub run_math-exact :
    (request : MathArgs) (out : Result) {r : Result}
    → run_math request out ≡ defined (st_success, r)
    → Computed request.op request.a request.b r
unfolding run_math
run_math-exact request out h = math_case-Computed request.op request.a request.b out h

set_int_result-undefined :
    (op : MathOp) (a b v : ℤ)
    → Exact op a b v
    → set_int_result v ≡ undefined
    → (w : ℤ) × Exact op a b w × ¬ IsInt32 w
unfolding set_int_result
set_int_result-undefined op a b v x h = (v, x, (λ fits. cc (IsInt32→fits_int32 v fits, h)))

math_case-undefined :
    (op : MathOp) (a b : ℤ) (out : Result)
    → math_case op a b out ≡ undefined
    → (w : ℤ) × Exact op a b w × ¬ IsInt32 w
unfolding math_case
math_case-undefined math_add a b out h = set_int_result-undefined math_add a b _ (add-Exact a b) h
math_case-undefined math_sub a b out h = set_int_result-undefined math_sub a b _ (sub-Exact a b) h
math_case-undefined math_mul a b out h = set_int_result-undefined math_mul a b _ (mul-Exact a b) h
math_case-undefined math_div a b out h = elim (Bool-cases (abs_ℕ b == 0)) [
  | inl zero_b ↦ absurd (ground arith)
  | inr ok ↦ set_int_result-undefined math_div a b _ (quot-Exact a b (ground arith)) (rw ok at h)
]
math_case-undefined (math_unnamed n) a b out h = cc

-- `runMath` is undefined only where the exact result is outside `int32_t`.
pub run_math-undefined :
    (request : MathArgs) (out : Result)
    → run_math request out ≡ undefined
    → (v : ℤ) × Exact request.op request.a request.b v × ¬ IsInt32 v
unfolding run_math
run_math-undefined request out h = math_case-undefined request.op request.a request.b out h
