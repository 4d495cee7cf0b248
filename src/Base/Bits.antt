-- ===== src/Base/Bits.antt =====
-- Laws of the native bit operations at variables, from the digit recursion that they stand for.
use Prim.Native.Nat.{max, digits, bit_or-bitwise}
use native.Mathlib.Nat.{pow-suc}
use inter_process_communicat.Base.{
  ℕ, zero, suc, ◌+◌, ◌*◌, ◌/◌, ◌%◌, ◌^◌, ◌≤◌, ◌<◌, bit_or, ◌≡◌, refl, ap, Bool, true, false,
  if◌then◌else◌, Bool-cases, inl, inr, ◌==◌, ==_iff, arith,
}

-- The recursion of `bit_or` on binary digits, with its fuel.
abbrev or_digits : ℕ → ℕ → ℕ → ℕ
or_digits n a b = digits (λ b. b) max n a b

or_digits-zero : (b n : ℕ) → or_digits n 0 b ≡ b
or_digits-zero b zero = refl
or_digits-zero b (suc n) = refl

or_digits_fuel : (b a m n : ℕ) → a ≤ m → a ≤ n → or_digits m a b ≡ or_digits n a b
or_digits_fuel b zero m n p q = cc (or_digits-zero b m, or_digits-zero b n)
or_digits_fuel b (suc a) (suc m) (suc n) p q =
    let rest = or_digits_fuel (b / 2) (suc a / 2) m n (omega arith) (omega arith) in
    omega (arith, rest)
or_digits_fuel b (suc a) zero n p q = absurd (omega arith)
or_digits_fuel b (suc a) (suc m) zero p q = absurd (omega arith)

pub zero-bit_or : (b : ℕ) → bit_or 0 b ≡ b
zero-bit_or b = bit_or-bitwise 0 b

pub bit_or_step : (a b : ℕ) → bit_or a b ≡ bit_or (a / 2) (b / 2) * 2 + max (a % 2) (b % 2)
bit_or_step zero b = omega (arith, zero-bit_or b, zero-bit_or (b / 2))
bit_or_step (suc a) b = omega (
  arith,
  bit_or-bitwise (suc a) b,
  bit_or-bitwise (suc a / 2) (b / 2),
  or_digits_fuel (b / 2) (suc a / 2) a (suc a / 2) (omega arith) (omega arith),
)

bit_or-zero_fuel : (n a : ℕ) → a ≤ n → bit_or a 0 ≡ a
bit_or-zero_fuel n zero h = refl
bit_or-zero_fuel zero (suc a) h = absurd (omega arith)
bit_or-zero_fuel (suc n) (suc a) h =
    omega (arith, bit_or_step (suc a) 0, bit_or-zero_fuel n (suc a / 2) (omega arith))

pub bit_or-zero : (a : ℕ) → bit_or a 0 ≡ a
bit_or-zero a = bit_or-zero_fuel a a (omega arith)

bit_or_double : (p q b : ℕ) → q ≡ p * 2 → bit_or p (b / 2) ≡ p + b / 2 → bit_or q b ≡ q + b
bit_or_double p q b e h =
    let half : q / 2 ≡ p = omega arith in
    let even : q % 2 ≡ 0 = omega arith in
    omega (arith, bit_or_step q b, ap (λ x. bit_or x (b / 2)) half)

-- Fields that do not overlap are joined by `|` as by `+`.
pub bit_or-eq-add : (k a b : ℕ) → b < 2 ^ k → bit_or (a * 2 ^ k) b ≡ a * 2 ^ k + b
bit_or-eq-add zero a b h = let e : b ≡ 0 = omega arith in rw e (omega (arith, bit_or-zero (a * 1)))
bit_or-eq-add (suc k) a b h =
    bit_or_double (a * 2 ^ k) (a * 2 ^ suc k) b
      (omega (arith, pow-suc 2 k, ap (λ x. a * x) (pow-suc 2 k)))
      (bit_or-eq-add k a (b / 2) (omega (arith, pow-suc 2 k)))

-- The test `p` at every number below `n`.
unfoldable pub all_below : ℕ → (ℕ → Bool) → Bool
all_below zero p = true
all_below (suc n) p = if p n then all_below n p else false

pub all_below_sound : (n : ℕ) (p : ℕ → Bool) (x : ℕ) → all_below n p ≡ true → x < n → p x ≡ true
unfolding all_below
all_below_sound (suc n) p x h lt = elim (Bool-cases (x == n)) [
  | inl last ↦ let same : x ≡ n = (==_iff x n).0 last in ground (arith, ap p same)
  | inr earlier ↦ all_below_sound n p x (ground arith) (ground arith)
]
all_below_sound zero p x h lt = absurd (omega arith)
