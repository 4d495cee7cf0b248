-- ===== src/Base/Text.antt =====
-- Text literals as lists of bytes, and what `printf` makes of numbers.
use Prim.Native.Char.{code}
use Prim.Native.String.{String}
use native.Mathlib.Nat.{pow-suc}
use inter_process_communicat.Base.{
  ℕ, zero, suc, ◌+◌, ◌-◌, ◌*◌, ◌/◌, ◌%◌, ◌^◌, ◌<◌, ◌≡◌, refl, ap, ◌∙◌, Bool, true, false, ◌&&◌,
  List, [], ◌∷◌, ◌++◌, append_assoc, arith, ltb, leb, if◌then◌else◌, Bool-cases, inl, inr,
}
use inter_process_communicat.Base.Int.{ℤ, pos, negsuc}

-- The bytes of an ASCII text.
abbrev pub codes : String → List ℕ
codes String.[] = []
codes (String.◌∷◌ c s) = code c ∷ codes s

-- The decimal digits of a number below 10 ^ f, the highest first.
unfoldable pub digits : ℕ → ℕ → List ℕ
digits zero n = []
digits (suc f) n =
    let higher = digits f (n / 10) in
    if ltb n 10 then (48 + n) ∷ [] else higher ++ ((48 + n % 10) ∷ [])

-- `%llu`, for a `uint64_t`, which has 20 digits at most.
unfoldable pub decimal : ℕ → List ℕ
unfolding digits
decimal n = digits 20 n

-- `%d`.
unfoldable pub decimal_ℤ : ℤ → List ℕ
unfolding decimal
decimal_ℤ (pos n) = decimal n
decimal_ℤ (negsuc n) = 45 ∷ decimal (suc n)

abbrev pub is_digit : ℕ → Bool
is_digit c = leb 48 c && leb c 57

-- The digits at the head of a text, as a number behind `n`, and the rest.
unfoldable pub read_digits : ℕ → List ℕ → ℕ × List ℕ
read_digits n [] = (n, [])
read_digits n (c ∷ s) = if is_digit c then read_digits (n * 10 + (c - 48)) s else (n, c ∷ s)

digits-low : (f n : ℕ) → ltb n 10 ≡ true → digits (suc f) n ≡ (48 + n) ∷ []
unfolding digits
digits-low f n low = rw low refl

digits-high :
    (f n : ℕ) → ltb n 10 ≡ false → digits (suc f) n ≡ digits f (n / 10) ++ ((48 + n % 10) ∷ [])
unfolding digits
digits-high f n high = rw high refl

more_digits : (f n : ℕ) → n < 10 ^ suc f → ltb n 10 ≡ false → 0 < f
more_digits zero n h high = ground arith
more_digits (suc f) n h high = omega arith

read_digits-last : (n : ℕ) (s : List ℕ) → read_digits (n / 10) ((48 + n % 10) ∷ s) ≡ read_digits n s
unfolding read_digits
read_digits-last n s = ground arith

read_digits-first : (n : ℕ) (s : List ℕ) → n < 10 → read_digits 0 ((48 + n) ∷ s) ≡ read_digits n s
unfolding read_digits
read_digits-first n s h =
    let e : 0 * 10 + (48 + n - 48) ≡ n = omega arith in
    let d : is_digit (48 + n) ≡ true = ground arith in rw d (ap (λ k. read_digits k s) e)

-- The digits of a number are read back, whatever follows.
pub read_digits-digits :
    (f n : ℕ) (s : List ℕ) → n < 10 ^ f → 0 < f → read_digits 0 (digits f n ++ s) ≡ read_digits n s
read_digits-digits zero n s h p = absurd (omega arith)
read_digits-digits (suc f) n s h p = elim (Bool-cases (ltb n 10)) [
  | inl low ↦
      ap (λ t. read_digits 0 (t ++ s)) (digits-low f n low) ∙ read_digits-first n s (ground arith)
  | inr high ↦
      ap (λ t. read_digits 0 (t ++ s)) (digits-high f n high)
      ∙ ap (read_digits 0) (append_assoc (digits f (n / 10)) ((48 + n % 10) ∷ []) s)
      ∙ read_digits-digits f (n / 10) ((48 + n % 10) ∷ s) (omega (arith, pow-suc 10 f))
          (more_digits f n h high)
      ∙ read_digits-last n s
]
