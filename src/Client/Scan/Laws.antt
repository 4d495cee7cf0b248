-- ===== src/Client/Scan/Laws.antt =====
-- Numbers that are read back from a line.
use native.Mathlib.Nat.{pow-suc}
use inter_process_communicat.Base.{
  ℕ, zero, suc, ◌+◌, ◌/◌, ◌%◌, ◌^◌, ◌≤◌, ◌<◌, ◌≡◌, refl, ap, sym, subst, ◌∙◌, true, false, some, [],
  ◌∷◌, ◌++◌, append-nil, length, length-append, arith, ltb, ◌==◌, Bool-cases, inl, inr, defined,
}
use inter_process_communicat.Base.Int.{ℤ, pos, negsuc, sub_ℕ, fits_int32, IsInt32}
use inter_process_communicat.Base.Text.{
  digits, decimal, decimal_ℤ, is_digit, read_digits, read_digits-digits,
}
use inter_process_communicat.Protocol.{Bytes}
use inter_process_communicat.Client.Scan.{
  is_space, skip_space, digits_at, with_sign, signed_at, scan_number, int_of, scan_int, unsigned_of,
  scan_unsigned, unsigned_long, strtoull,
}
use inter_process_communicat.Client.Scan.Words.{NoSpace}

abbrev AllDigits : Bytes → Type 0
AllDigits [] = Unit
AllDigits (c ∷ s) = (is_digit c ≡ true) × AllDigits s

AllDigits-append : (s t : Bytes) → AllDigits s → AllDigits t → AllDigits (s ++ t)
AllDigits-append [] t a b = b
AllDigits-append (c ∷ s) t (d, a) b = (d, AllDigits-append s t a b)

digits-AllDigits : (f n : ℕ) → n < 10 ^ f → AllDigits (digits f n)
unfolding digits
digits-AllDigits zero n h = tt
digits-AllDigits (suc f) n h = elim (Bool-cases (ltb n 10)) [
  | inl low ↦ rw low (ground arith, tt)
  | inr high ↦ rw high (
      AllDigits-append (digits f (n / 10)) ((48 + n % 10) ∷ [])
        (digits-AllDigits f (n / 10) (omega (arith, pow-suc 10 f))) (ground arith, tt))
]

digits-length : (f n : ℕ) → length (digits f n) ≤ f
unfolding digits
digits-length zero n = omega arith
digits-length (suc f) n =
    ground (arith, digits-length f (n / 10), length-append (digits f (n / 10)) ((48 + n % 10) ∷ []))

-- A decimal number starts with a digit.
pub digits_head :
    (f n : ℕ)
    → n < 10 ^ f
    → 0 < f
    → (c : ℕ) × (t : Bytes) × (digits f n ≡ c ∷ t) × (is_digit c ≡ true)
unfolding digits
digits_head zero n h p = absurd (omega arith)
digits_head (suc f) n h p = elim (Bool-cases (ltb n 10)) [
  | inl low ↦ (48 + n, [], rw low refl, ground arith)
  | inr high ↦
      let (c, t, e, d) = digits_head f (n / 10) (omega (arith, pow-suc 10 f)) (more f h high) in
      (c, t ++ ((48 + n % 10) ∷ []), rw (high, e) refl, d)
]
  where
    more : (f : ℕ) → n < 10 ^ suc f → ltb n 10 ≡ false → 0 < f
    more zero h high = ground arith
    more (suc f) h high = omega arith

AllDigits-NoSpace : (s : Bytes) → AllDigits s → NoSpace s
AllDigits-NoSpace [] a = tt
AllDigits-NoSpace (c ∷ s) (d, a) = (ground arith, AllDigits-NoSpace s a)

-- What follows a number does not go on with a digit.
abbrev pub NoDigit : Bytes → Type 0
NoDigit [] = Unit
NoDigit (c ∷ s) = is_digit c ≡ false

read_digits-end : (n : ℕ) (s : Bytes) → NoDigit s → read_digits n s ≡ (n, s)
unfolding read_digits
read_digits-end n [] h = refl
read_digits-end n (c ∷ s) h = rw h refl

read-decimal :
    (n : ℕ) (s : Bytes) → n < 10 ^ 20 → NoDigit s → read_digits 0 (decimal n ++ s) ≡ (n, s)
unfolding decimal
read-decimal n s h e = read_digits-digits 20 n s h (omega arith) ∙ read_digits-end n s e

signed_at-digit :
    (c : ℕ) (s : Bytes)
    → is_digit c ≡ true
    → signed_at (c ∷ s) ≡ with_sign false (some (read_digits 0 (c ∷ s)))
unfolding signed_at digits_at
signed_at-digit c s d =
    let a : (c == 45) ≡ false = ground arith in
    let b : (c == 43) ≡ false = ground arith in rw (a, b, d) refl

scan_number-decimal :
    (n : ℕ) (s : Bytes)
    → n < 10 ^ 20
    → NoDigit s
    → scan_number (decimal n ++ s) ≡ some (false, n, s)
unfolding scan_number skip_space
scan_number-decimal n s h e =
    let (c, t, start, d) = digits_head 20 n h (omega arith) in
    let head : decimal n ≡ c ∷ t = unfold decimal in start in
    let no_space : is_space c ≡ false = ground arith in
    let value = ap (λ u. read_digits 0 (u ++ s)) (sym head) ∙ read-decimal n s h e in
    ap (λ u. signed_at (skip_space (u ++ s))) head
    ∙ rw no_space (signed_at-digit c (t ++ s) d)
    ∙ ap (λ (x : ℕ × Bytes). with_sign false (some x)) value

-- A ticket number as `printSubmit` prints it is read back by `strtoull`.
pub strtoull-decimal : (n : ℕ) → n < 2 ^ 64 → strtoull (decimal n) ≡ n
unfolding strtoull unsigned_long
strtoull-decimal n h =
    let e =
      ap scan_number (sym (append-nil (decimal n))) ∙ scan_number-decimal n [] (omega arith) tt in
    let small : ltb n (2 ^ 64) ≡ true = ground arith in rw (e, small) refl

scan_int-pos :
    (n : ℕ) (s : Bytes)
    → n < 2 ^ 31
    → NoDigit s
    → scan_int (decimal n ++ s) ≡ defined (some (pos n, s))
unfolding scan_int int_of
scan_int-pos n s h e =
    let fits : fits_int32 (pos n) ≡ true = ground arith in
    rw (scan_number-decimal n s (omega arith) e, fits) refl

digits_at-digit :
    (c : ℕ) (s : Bytes) → is_digit c ≡ true → digits_at (c ∷ s) ≡ some (read_digits 0 (c ∷ s))
unfolding digits_at
digits_at-digit c s d = rw d refl

scan_number-minus :
    (n : ℕ) (s : Bytes)
    → n < 10 ^ 20
    → NoDigit s
    → scan_number (45 ∷ (decimal n ++ s)) ≡ some (true, n, s)
unfolding scan_number skip_space signed_at
scan_number-minus n s h e =
    let (c, t, start, d) = digits_head 20 n h (omega arith) in
    let head : decimal n ≡ c ∷ t = unfold decimal in start in
    let value = ap (λ u. read_digits 0 (u ++ s)) (sym head) ∙ read-decimal n s h e in
    ap (λ u. with_sign true (digits_at (u ++ s))) head
    ∙ ap (with_sign true) (digits_at-digit c (t ++ s) d)
    ∙ ap (λ (x : ℕ × Bytes). with_sign true (some x)) value

scan_int-negsuc :
    (n : ℕ) (s : Bytes)
    → suc n ≤ 2 ^ 31
    → NoDigit s
    → scan_int (45 ∷ (decimal (suc n) ++ s)) ≡ defined (some (negsuc n, s))
unfolding scan_int int_of
scan_int-negsuc n s h e =
    let v : sub_ℕ 0 (suc n) ≡ negsuc n = ground arith in
    let fits : fits_int32 (negsuc n) ≡ true = ground arith in
    rw (scan_number-minus (suc n) s (omega arith) e, v, fits) refl

-- Every `int` as it is printed is read back by `%d`, whatever follows but a digit.
pub scan_int-decimal_ℤ :
    (a : ℤ) (s : Bytes)
    → IsInt32 a
    → NoDigit s
    → scan_int (decimal_ℤ a ++ s) ≡ defined (some (a, s))
unfolding decimal_ℤ
scan_int-decimal_ℤ (pos n) s h e = scan_int-pos n s h.1 e
scan_int-decimal_ℤ (negsuc n) s h e = scan_int-negsuc n s h.0 e

-- A decimal number is a word of at most 20 bytes.
pub decimal_word :
    (n : ℕ)
    → n < 10 ^ 20
    → (c : ℕ) × (t : Bytes) × (decimal n ≡ c ∷ t) × NoSpace (c ∷ t) × (length (c ∷ t) ≤ 20)
unfolding decimal
decimal_word n h =
    let (c, t, start, d) = digits_head 20 n h (omega arith) in
    (
      c,
      t,
      start,
      subst NoSpace start (AllDigits-NoSpace (digits 20 n) (digits-AllDigits 20 n h)),
      omega (arith, digits-length 20 n, ap length start),
    )

pub scan_unsigned-decimal : (n : ℕ) → n < 2 ^ 32 → scan_unsigned (decimal n) ≡ defined (some n)
unfolding scan_unsigned unsigned_of
scan_unsigned-decimal n h =
    let e =
      ap scan_number (sym (append-nil (decimal n))) ∙ scan_number-decimal n [] (omega arith) tt in
    let small : ltb n (2 ^ 32) ≡ true = ground arith in rw (e, small) refl
