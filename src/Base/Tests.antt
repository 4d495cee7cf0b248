-- ===== src/Base/Tests.antt =====
-- Boolean tests on the native numbers, the conditional, and computations that C++ may leave undefined.
use Prim.Native.Nat.{ℕ, ◌≤◌, ◌<◌, compare, Ordering}
use mathlib.Core.Path.{◌≡◌, refl, subst}
use mathlib.Core.Logic.{◌↔◌, ◌⊎◌, inl, inr}
use mathlib.Core.Bool.{Bool, true, false}
use mathlib.Core.Option.{Option, none, some}
use native.Mathlib.Omega.{arith}

-- These compute to `compare`, which `ground` and `grind` read with no lemma listed.
abbrev pub ltb : ℕ → ℕ → Bool
ltb a b = elim (compare a b) [ Ordering.lt ↦ true | _ ↦ false ]

abbrev pub leb : ℕ → ℕ → Bool
leb a b = elim (compare a b) [ Ordering.gt ↦ false | _ ↦ true ]

infix 50 ◌==◌
abbrev pub ◌==◌ : ℕ → ℕ → Bool
a == b = elim (compare a b) [ Ordering.eq ↦ true | _ ↦ false ]

infix 1 if◌then◌else◌
abbrev pub if◌then◌else◌ {ℓ} : {A : Type ℓ} → Bool → A → A → A
if true then x else y = x
if false then x else y = y

-- `omega` reads a test through such lemmas.
pub ltb→lt : (a b : ℕ) → ltb a b ≡ true → a < b
ltb→lt a b h = ground arith

pub lt→ltb : (a b : ℕ) → a < b → ltb a b ≡ true
lt→ltb a b h = ground arith

pub leb→le : (a b : ℕ) → leb a b ≡ true → a ≤ b
leb→le a b h = ground arith

pub ==_iff : (a b : ℕ) → ((a == b) ≡ true) ↔ (a ≡ b)
==_iff a b = ground arith

pub ==_refl : (a : ℕ) → (a == a) ≡ true
==_refl a = ground arith

-- To split on a computed value and keep the equation.
pub Bool-cases : (b : Bool) → (b ≡ true) ⊎ (b ≡ false)
Bool-cases true = inl refl
Bool-cases false = inr refl

pub Option-cases {ℓ} : {A : Type ℓ} (o : Option A) → (o ≡ none) ⊎ ((a : A) × (o ≡ some a))
Option-cases none = inl refl
Option-cases (some a) = inr (a, refl)

-- `undefined` is a computation whose behaviour C++ does not define, such as a signed overflow.
pub data Outcome {ℓ} (A : Type ℓ) : Type ℓ where
  undefined : Outcome A
  defined : A → Outcome A

infixl 5 ◌>>=◌
abbrev pub ◌>>=◌ {ℓ κ} : {A : Type ℓ} {B : Type κ} → Outcome A → (A → Outcome B) → Outcome B
undefined >>= f = undefined
defined a >>= f = f a

pub Outcome-cases {ℓ} : {A : Type ℓ} (o : Outcome A) → (o ≡ undefined) ⊎ ((a : A) × (o ≡ defined a))
Outcome-cases undefined = inl refl
Outcome-cases (defined a) = inr (a, refl)

pub >>=-eq-defined {ℓ κ} :
    {A : Type ℓ} {B : Type κ} (m : Outcome A) (f : A → Outcome B) {b : B}
    → (m >>= f) ≡ defined b
    → (a : A) × (m ≡ defined a) × (f a ≡ defined b)
>>=-eq-defined undefined f h = cc
>>=-eq-defined (defined a) f h = (a, refl, h)

pub defined-injective {ℓ} : {A : Type ℓ} {a b : A} → defined a ≡ defined b → a ≡ b
defined-injective h = cc

-- What holds of the value of a computation holds of the value that it is known to return.
pub transfer {ℓ κ} : {A : Type ℓ} (P : A → Type κ) {a b : A} → defined a ≡ defined b → P a → P b
transfer P h p = subst P (defined-injective h) p

pub transfer_some {ℓ κ} :
    {A : Type ℓ} (P : A → Type κ) {a b : A} → defined (some a) ≡ defined (some b) → P a → P b
transfer_some P h p = subst P (cc) p

pub if_keeps {ℓ κ} :
    {A : Type ℓ} (P : A → Type κ) (c : Bool) (x y : A) → P x → P y → P (if c then x else y)
if_keeps P true x y p q = p
if_keeps P false x y p q = q

pub defined_some-injective {ℓ} :
    {A : Type ℓ} {a b : A} → defined (some a) ≡ defined (some b) → a ≡ b
defined_some-injective h = cc
