-- ===== src/Base/Eq.antt =====
-- Keys: types with a Boolean equality, as an instance argument.
use inter_process_communicat.Base.{
  ℕ, ◌≡◌, refl, ◌↔◌, Bool, true, false, ◌&&◌, List, [], ◌∷◌, arith, ◌==◌, ==_iff,
}

pub record Eq {ℓ} (A : Type ℓ) : Type ℓ where
  pub beq : A → A → Bool
  pub beq_iff : (a b : A) → (beq a b ≡ true) ↔ (a ≡ b)

instance abbrev pub nat_eq : Eq ℕ
nat_eq = record { beq = ◌==◌; beq_iff = ==_iff }

abbrev pub bytes_beq : List ℕ → List ℕ → Bool
bytes_beq [] [] = true
bytes_beq [] (y ∷ t) = false
bytes_beq (x ∷ s) [] = false
bytes_beq (x ∷ s) (y ∷ t) = (x == y) && bytes_beq s t

pub bytes_beq_iff : (s t : List ℕ) → (bytes_beq s t ≡ true) ↔ (s ≡ t)
bytes_beq_iff [] [] = ((λ h. refl), (λ h. refl))
bytes_beq_iff [] (y ∷ t) = ((λ h. cc), (λ h. cc))
bytes_beq_iff (x ∷ s) [] = ((λ h. cc), (λ h. cc))
bytes_beq_iff (x ∷ s) (y ∷ t) = ground (arith, bytes_beq_iff s t)

instance abbrev pub bytes_eq : Eq (List ℕ)
bytes_eq = record { beq = bytes_beq; beq_iff = bytes_beq_iff }
