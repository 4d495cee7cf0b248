-- ===== src/Operations/Text.antt =====
-- `runStr`: what a search finds, and the limit of a concatenation.
use inter_process_communicat.Base.{
  ℕ, suc, ◌+◌, ◌^◌, ◌≤◌, ◌<◌, ◌≡◌, refl, ap, true, false, ◌⊎◌, inl, inr, Option, none, some, [],
  ◌∷◌, ◌++◌, arith, Bool-cases, length, length-append,
}
use inter_process_communicat.Base.Int.{pos, to_int32}
use inter_process_communicat.Protocol.{
  Bytes, str_concat, str_find_start, Status, st_success, st_error_substr_not_found,
  st_error_string_too_long, Result, position, str_result,
}
use inter_process_communicat.Operations.{
  starts_with, find_from, find, report_position, str_case, run_str,
}

cons-tail : {x y : ℕ} {s t : Bytes} → x ∷ s ≡ y ∷ t → s ≡ t
cons-tail h = cc

starts_with_sound : (s t : Bytes) → starts_with s t ≡ true → (v : Bytes) × (s ≡ t ++ v)
unfolding starts_with
starts_with_sound s [] h = (s, refl)
starts_with_sound [] (y ∷ t) h = cc
starts_with_sound (x ∷ s) (y ∷ t) h =
    let (v, e) = starts_with_sound s t (ground arith) in let same : x ≡ y = ground arith in (v, cc)

starts_with-append : (t v : Bytes) → starts_with (t ++ v) t ≡ true
unfolding starts_with
starts_with-append [] v = refl
starts_with-append (y ∷ t) v = ground (arith, starts_with-append t v)

-- `t` stands in `s` behind `u`.
abbrev pub Occurs : Bytes → Bytes → Bytes → Type 0
Occurs s t u = (v : Bytes) × (s ≡ u ++ (t ++ v))

-- `i` is the first position of `t` in `s`, or there is none.
abbrev pub IsFirst : Bytes → Bytes → Option ℕ → Type 0
IsFirst s t none = (u : Bytes) → ¬ Occurs s t u
IsFirst s t (some i) =
    (u : Bytes) × (length u ≡ i) × Occurs s t u × ((w : Bytes) → Occurs s t w → i ≤ length w)

-- The same for a search that counts from `i`.
abbrev FirstFrom : ℕ → Bytes → Bytes → Option ℕ → Type 0
FirstFrom i s t none = (u : Bytes) → ¬ Occurs s t u
FirstFrom i s t (some k) =
    (u : Bytes) × (i + length u ≡ k)
    × Occurs s t u
    × ((w : Bytes) → Occurs s t w → k ≤ i + length w)

FirstFrom-here : (i : ℕ) (s t : Bytes) → starts_with s t ≡ true → FirstFrom i s t (some i)
FirstFrom-here i s t h = ([], omega arith, starts_with_sound s t h, λ w o. omega arith)

not-Occurs-nil : (s t : Bytes) → starts_with s t ≡ false → ¬ Occurs s t []
not-Occurs-nil s t h (v, e) = cc (h, ap (λ s. starts_with s t) e, starts_with-append t v)

Occurs-tail : (x y : ℕ) (s t u : Bytes) → Occurs (x ∷ s) t (y ∷ u) → Occurs s t u
Occurs-tail x y s t u (v, e) = (v, cons-tail e)

not-Occurs-cons :
    (x : ℕ) (s t : Bytes)
    → starts_with (x ∷ s) t ≡ false
    → ((u : Bytes) → ¬ Occurs s t u)
    → (u : Bytes) → ¬ Occurs (x ∷ s) t u
not-Occurs-cons x s t h none_later [] o = not-Occurs-nil (x ∷ s) t h o
not-Occurs-cons x s t h none_later (y ∷ u) o = none_later u (Occurs-tail x y s t _ o)

FirstFrom-cons :
    (i x : ℕ) (s t : Bytes) (o : Option ℕ)
    → starts_with (x ∷ s) t ≡ false
    → FirstFrom (suc i) s t o
    → FirstFrom i (x ∷ s) t o
FirstFrom-cons i x s t none h f = not-Occurs-cons x s t h f
FirstFrom-cons i x s t (some k) h (u, e, (v, d), least) =
    (x ∷ u, omega arith, (v, ap (λ s. x ∷ s) d), go)
  where
    go : (w : Bytes) → Occurs (x ∷ s) t w → k ≤ i + length w
    go [] o = absurd (not-Occurs-nil (x ∷ s) t h o)
    go (y ∷ w) o = omega (arith, least w (Occurs-tail x y s t _ o))

find_from-FirstFrom : (i : ℕ) (s t : Bytes) → FirstFrom i s t (find_from i s t)
unfolding find_from
find_from-FirstFrom i [] t = elim (Bool-cases (starts_with [] t)) [
  | inl hit ↦ rw hit (FirstFrom-here i [] t hit)
  | inr miss ↦ rw miss (not_in_nil t miss)
]
  where
    not_in_nil : (t : Bytes) → starts_with [] t ≡ false → (u : Bytes) → ¬ Occurs [] t u
    not_in_nil t h [] o = not-Occurs-nil [] t h o
    not_in_nil t h (y ∷ u) (v, e) = cc
find_from-FirstFrom i (x ∷ s) t = elim (Bool-cases (starts_with (x ∷ s) t)) [
  | inl hit ↦ rw hit (FirstFrom-here i (x ∷ s) t hit)
  | inr miss ↦ rw miss (FirstFrom-cons i x s t _ miss (find_from-FirstFrom (suc i) s t))
]

find-IsFirst : (s t : Bytes) → IsFirst s t (find s t)
unfolding find
find-IsFirst s t = go (find_from 0 s t) (find_from-FirstFrom 0 s t)
  where
    go : (o : Option ℕ) → FirstFrom 0 s t o → IsFirst s t o
    go none f = f
    go (some k) (u, e, o, least) = (u, omega arith, o, λ w q. omega (arith, least w q))

-- What a client is told about the place of `t` in `s`.
abbrev pub Located : Bytes → Bytes → Result → Status × Result → Type 0
Located s t out answer =
    ((answer ≡ (st_error_substr_not_found, out)) × ((u : Bytes) → ¬ Occurs s t u))
    ⊎ ((u : Bytes) × (answer ≡ (st_success, position (pos (length u))))
        × Occurs s t u
        × ((w : Bytes) → Occurs s t w → length u ≤ length w))

to_int32-pos : (n : ℕ) → n < 2 ^ 31 → to_int32 n ≡ pos n
to_int32-pos n h = ground arith

report_position-Located :
    (s t : Bytes) (out : Result) (o : Option ℕ)
    → length s < 2 ^ 31
    → IsFirst s t o
    → Located s t out (report_position o out)
unfolding report_position
report_position-Located s t out none h f = inl (refl, f)
report_position-Located s t out (some i) h (u, l, (v, d), least) = inr (
  u,
  cc (to_int32-pos i (omega (arith, l, inside)), l),
  (v, d),
  (λ w q. omega (arith, l, least w q)),
)
  where
    inside : length u ≤ length s
    inside = omega (arith, length-append u (t ++ v), ap length d)

-- For a text of less than 2^31 bytes, STR_FIND_START reports the length of the shortest part of s1
-- that stands before an occurrence of s2, wherever in s1 it is, and fails exactly if there is none.
pub run_str_find-Located :
    (s1 s2 : Bytes) (out : Result)
    → length s1 < 2 ^ 31
    → Located s1 s2 out (run_str (record { op = str_find_start; s1 = s1; s2 = s2 }) out)
unfolding run_str str_case
run_str_find-Located s1 s2 out h =
    report_position-Located s1 s2 out (find s1 s2) h (find-IsFirst s1 s2)

-- STR_CONCAT joins its two texts if they have at most 32 bytes together, and otherwise fails.
pub run_str_concat-limit :
    (s1 s2 : Bytes) (out : Result)
    → let answer = run_str (record { op = str_concat; s1 = s1; s2 = s2 }) out in
      (length s1 + length s2 ≤ 32 → answer ≡ (st_success, str_result (s1 ++ s2)))
      × (32 < length s1 + length s2 → answer ≡ (st_error_string_too_long, out))
unfolding run_str str_case
run_str_concat-limit s1 s2 out =
    ((λ h. ground (arith, length-append s1 s2)), (λ h. ground (arith, length-append s1 s2)))
