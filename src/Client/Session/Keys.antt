-- ===== src/Client/Session/Keys.antt =====
-- The numbers in the map of pending tickets, and how often each one stands there.
use inter_process_communicat.Base.{
  ℕ, ◌+◌, ◌-◌, ◌≡◌, refl, ap, ◌∙◌, Option, none, some, List, [], ◌∷◌, arith, count, ◌==◌,
  if◌then◌else◌,
}
use mathlib.Core.Logic.{∥∥₁_elim}
use mathlib.Core.List.{Perm, Permᴰ}
use mathlib.Core.List.Permᴰ.{nil, cons, swap, trans}
use native.Mathlib.Nat.{ℕ_set}
use inter_process_communicat.Base.Eq.{nat_eq}
use inter_process_communicat.Base.Dict.{Dict, find, assign, erase, find-assign, find-erase}

abbrev pub keys : Dict ℕ ℕ → List ℕ
keys [] = []
keys ((k, v) ∷ m) = k ∷ keys m

-- 1 for a key that the map has.
abbrev pub present : Option ℕ → ℕ
present none = 0
present (some v) = 1

-- Each key of the map stands in it once.
abbrev pub IsOnce : Dict ℕ ℕ → Type 0
IsOnce m = (k : ℕ) → count k (keys m) ≡ present (find k m)

count-assign :
    (n v k : ℕ) (m : Dict ℕ ℕ)
    → count k (keys (assign n v m))
      ≡ count k (keys m) + (if k == n then 1 - present (find n m) else 0)
unfolding assign find
count-assign n v k [] = ground arith
count-assign n v k ((j, w) ∷ m) = ground (arith, count-assign n v k m)

count-erase :
    (n k : ℕ) (m : Dict ℕ ℕ) → count k (keys (erase n m)) ≡ (if k == n then 0 else count k (keys m))
unfolding erase
count-erase n k [] = ground arith
count-erase n k ((j, w) ∷ m) = ground (arith, count-erase n k m)

pub assign-IsOnce : (n v : ℕ) (m : Dict ℕ ℕ) → IsOnce m → IsOnce (assign n v m)
assign-IsOnce n v m once k = ground (arith, count-assign n v k m, find-assign n k v m, once k)

pub erase-IsOnce : (n : ℕ) (m : Dict ℕ ℕ) → IsOnce m → IsOnce (erase n m)
erase-IsOnce n m once k = ground (arith, count-erase n k m, find-erase n k m, once k)

abbrev at_key : ℕ → ℕ × ℕ → ℕ
at_key k e = if k == e.0 then 1 else 0

count-Permᴰ : (k : ℕ) {l m : Dict ℕ ℕ} → Permᴰ l m → count k (keys l) ≡ count k (keys m)
count-Permᴰ k nil = refl
count-Permᴰ k (cons {a} {b} e p) = omega (arith, ap (at_key k) e, count-Permᴰ k p)
count-Permᴰ k (swap e e') = omega (arith, ap (at_key k) e, ap (at_key k) e')
count-Permᴰ k (trans p q) = count-Permᴰ k p ∙ count-Permᴰ k q

-- The order of the entries does not matter.
pub count-Perm : (k : ℕ) {l m : Dict ℕ ℕ} → Perm l m → count k (keys l) ≡ count k (keys m)
count-Perm k p = ∥∥₁_elim p (ℕ_set _ _) (count-Permᴰ k)
