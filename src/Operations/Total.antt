-- ===== src/Operations/Total.antt =====
-- When `runMath` succeeds, fails, or overflows.
use native.Mathlib.Nat.{div-add-mod, mul-le-mul_right}
use mathlib.Core.Path.{subst₂}
use inter_process_communicat.Base.{
  ℕ, suc, ◌+◌, ◌*◌, ◌/◌, ◌≤◌, ◌<◌, ◌≡◌, refl, sym, ap, subst, ◌∙◌, Outcome-cases, ◌≢◌, ◌↔◌, ◌⊎◌,
  arith, undefined, defined, inl, inr, ◌==◌, Bool-cases,
}
use inter_process_communicat.Base.Int.{
  ℤ, pos, negsuc, quot_ℤ, IsInt32, abs_ℕ, int32_min, eq_of_parts,
}
use inter_process_communicat.Protocol.{
  Status-discrete, MathOp, math_add, math_sub, math_mul, math_div, math_unnamed, Status, st_success,
  st_error_invalid_input, st_error_div_by_zero, MathArgs, Result, int_result,
}
use inter_process_communicat.Operations.{set_int_result, math_case, run_math}
use inter_process_communicat.Operations.Math.{QuotSign, Exact, run_math-exact, run_math-undefined}

div-le : (m n : ℕ) → m / n ≤ m
div-le m n = grind arith

div-le_half : (m n : ℕ) → 2 ≤ n → m / n * 2 ≤ m
div-le_half m n h = grind (arith, div-add-mod)

div_one : (m : ℕ) → m / 1 ≡ m
div_one m = omega arith

-- A division of two `int32_t` has one undefined case, the least number by -1.
pub run_math_div-undefined_iff :
    (a b : ℤ) (out : Result)
    → IsInt32 a
    → IsInt32 b
    → (run_math (record { op = math_div; a = a; b = b }) out ≡ undefined)
      ↔ ((a ≡ int32_min) × (b ≡ negsuc 0))
unfolding run_math math_case set_int_result quot_ℤ
run_math_div-undefined_iff (pos m) (pos n) out ha hb =
    ((λ e. absurd (ground (arith, div-le m n))), (λ e. absurd (ground arith)))
run_math_div-undefined_iff (pos m) (negsuc n) out ha hb =
    ((λ e. absurd (ground (arith, div-le m (suc n)))), (λ e. absurd (ground arith)))
run_math_div-undefined_iff (negsuc m) (pos n) out ha hb =
    ((λ e. absurd (ground (arith, div-le (suc m) n))), (λ e. absurd (ground arith)))
run_math_div-undefined_iff (negsuc m) (negsuc n) out ha hb =
    ((λ e. ground (arith, div-le_half (suc m) (suc n))), (λ e. ground (arith, div_one (suc m))))

abbrev pub Failed : MathOp → ℤ → Result → Status → Result → Type 0
Failed op b out s r =
    (r ≡ out)
    × (((s ≡ st_error_div_by_zero) × (op ≡ math_div) × (b ≡ pos 0))
        ⊎ ((n : ℕ) × (s ≡ st_error_invalid_input) × (op ≡ math_unnamed n)))

math_case-error :
    (op : MathOp) (a b : ℤ) (out : Result) {s : Status} {r : Result}
    → math_case op a b out ≡ defined (s, r)
    → s ≢ st_success
    → Failed op b out s r
unfolding math_case set_int_result
math_case-error math_add a b out h ne = absurd (ground arith)
math_case-error math_sub a b out h ne = absurd (ground arith)
math_case-error math_mul a b out h ne = absurd (ground arith)
math_case-error math_div a (pos n) out h ne = elim (Bool-cases (n == 0)) [
  | inl zero_b ↦ (ground arith, inl (ground arith, refl, ground arith))
  | inr ok ↦ absurd (ground arith)
]
math_case-error math_div a (negsuc n) out h ne = absurd (ground arith)
math_case-error (math_unnamed n) a b out h ne = (ground arith, inr (n, ground arith, refl))

-- A failed operation leaves the message as it was; it is a division by 0, or one that the protocol
-- does not name.
pub run_math-error :
    (request : MathArgs) (out : Result) {s : Status} {r : Result}
    → run_math request out ≡ defined (s, r)
    → s ≢ st_success
    → Failed request.op request.b out s r
unfolding run_math
run_math-error request out h ne = math_case-error request.op request.a request.b out h ne

quotient_unique : (n q r p t : ℕ) → q * n + r ≡ p * n + t → r < n → t < n → (q < p) → ⊥
quotient_unique n q r p t e hr ht lt = grind (arith, mul-le-mul_right)

abs_unique : (n q r p t : ℕ) → q * n + r ≡ p * n + t → r < n → t < n → q ≡ p
abs_unique n q r p t e hr ht = ground (
  arith,
  (λ (lt : q < p). quotient_unique n q r p t e hr ht lt),
  (λ (lt : p < q). quotient_unique n p t q r (sym e) ht hr lt),
)

signed_unique : (a b v w : ℤ) → QuotSign a b v → QuotSign a b w → abs_ℕ v ≡ abs_ℕ w → v ≡ w
signed_unique (pos m) (pos n) v w p q e = ground arith
signed_unique a b v w p q e = ground arith

Exact-unique : (op : MathOp) (a b v w : ℤ) → Exact op a b v → Exact op a b w → v ≡ w
Exact-unique math_add a b v w p q = eq_of_parts v w (omega arith)
Exact-unique math_sub a b v w p q = eq_of_parts v w (omega arith)
Exact-unique math_mul a b v w p q = eq_of_parts v w (omega arith)
Exact-unique math_div a b v w (r, e, lt, sign) (r', e', lt', sign') =
    signed_unique a b v w sign sign'
      (abs_unique (abs_ℕ b) (abs_ℕ v) r (abs_ℕ w) r' (sym e ∙ e') lt lt')
Exact-unique (math_unnamed n) a b v w p q = absurd p

Failed-not-Exact :
    (op : MathOp) (a b v : ℤ) (out : Result) {s : Status} {r : Result}
    → Failed op b out s r
    → Exact op a b v
    → ⊥
Failed-not-Exact op a b v out (_, inl (_, o, z)) x =
    let x' : Exact math_div a (pos 0) v = subst₂ (λ op b. Exact op a b v) o z x in
    absurd (omega (arith, x'.2))
Failed-not-Exact op a b v out (_, inr (n, _, o)) x = subst (λ op. Exact op a b v) o x

-- Where the exact result exists and is in range, `runMath` reports it.
pub run_math-succeeds :
    (request : MathArgs) (out : Result) (v : ℤ)
    → Exact request.op request.a request.b v
    → IsInt32 v
    → run_math request out ≡ defined (st_success, int_result v)
run_math-succeeds request out v x fits = elim (Outcome-cases (run_math request out)) [
  | inl over ↦
      let (w, y, no_fit) = run_math-undefined request out over in
      absurd (no_fit (subst IsInt32 (Exact-unique request.op request.a request.b v w x y) fits))
  | inr ((s, r), e) ↦ elim (Status-discrete s st_success) [
    | yes won ↦
        let c = run_math-exact request out (e ∙ ap (λ s. defined (s, r)) won) in
        let same = Exact-unique request.op request.a request.b v c.value x c.exact in
        cc (e, won, c.stored, same)
    | no lost ↦ absurd (
        Failed-not-Exact request.op request.a request.b v out (run_math-error request out e lost) x)
  ]
]
