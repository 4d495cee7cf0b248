-- ===== src/Caps/Laws.antt =====
-- Which masks the server accepts, and what a mask grants.
use inter_process_communicat.Base.{
  ℕ, ◌/◌, ◌%◌, ◌^◌, ◌≤◌, ◌<◌, ◌≡◌, refl, ◌∙◌, bit_and, Bool, true, false, not, ◌&&◌, ◌↔◌, ◌⊎◌, inl,
  inr, Option, none, some, arith, ltb, ◌==◌, ==_iff,
}
use inter_process_communicat.Base.Bits.{all_below, all_below_sound}
use inter_process_communicat.Protocol.{
  MathOp, math_add, math_sub, math_mul, math_div, math_unnamed, StrOp, str_concat, str_find_start,
  str_unnamed, Payload, payload_not_set, math, str,
}
use inter_process_communicat.Caps.{
  verify_exec_caps, math_required, str_required, required, client_has_capability_for,
}

eq_bool : Bool → Bool → Bool
eq_bool true b = b
eq_bool false b = not b

eq_bool_sound : (a b : Bool) → eq_bool a b ≡ true → a ≡ b
unfolding eq_bool
eq_bool_sound true b h = ground arith
eq_bool_sound false b h = ground arith

verify_table : all_below 256 (λ f. eq_bool (verify_exec_caps f) (ltb 0 f && ltb f 64)) ≡ true
unfolding all_below eq_bool verify_exec_caps
verify_table = refl

-- A mask of eight bits is accepted exactly when it is from 1 to 63: some operation is named, and no
-- bit beyond the six flags is set.
pub verify_exec_caps_iff : (f : ℕ) → f < 256 → (verify_exec_caps f ≡ true) ↔ ((1 ≤ f) × (f ≤ 63))
verify_exec_caps_iff f h =
    let e = eq_bool_sound _ _ (all_below_sound 256 _ f verify_table h) in ground (arith, e)

-- Bit `k` of `n`.
abbrev pub bit : ℕ → ℕ → ℕ
bit k n = n / 2 ^ k % 2

-- The number of the operation among the flags.
abbrev pub math_index : MathOp → Option ℕ
math_index math_add = some 0
math_index math_sub = some 1
math_index math_mul = some 2
math_index math_div = some 3
math_index (math_unnamed n) = none

abbrev pub str_index : StrOp → Option ℕ
str_index str_concat = some 4
str_index str_find_start = some 5
str_index (str_unnamed n) = none

abbrev pub index : Payload → Option ℕ
index payload_not_set = none
index (math args) = math_index args.op
index (str args) = str_index args.op

-- The request names an operation, and its bit is set.
abbrev pub Granted : Payload → ℕ → Type 0
Granted p caps = (k : ℕ) × (index p ≡ some k) × (bit k caps ≡ 1)

flag_set : ℕ → ℕ → Bool
flag_set k c = eq_bool (not (bit_and c (2 ^ k) == 0)) (bit k c == 1)

flag_table : all_below 256 (λ c. all_below 6 (λ k. flag_set k c)) ≡ true
unfolding all_below flag_set eq_bool
flag_table = refl

flag_bit : (k c : ℕ) → k < 6 → c < 256 → not (bit_and c (2 ^ k) == 0) ≡ (bit k c == 1)
unfolding flag_set
flag_bit k c hk hc =
    let row = all_below_sound 256 (λ c. all_below 6 (λ k. flag_set k c)) c flag_table hc in
    eq_bool_sound _ _ (all_below_sound 6 (λ k. flag_set k c) k row hk)

abbrev SameIndex : Option ℕ → Option ℕ → Type 0
SameIndex flag number =
    ((flag ≡ none) × (number ≡ none))
    ⊎ ((k : ℕ) × (k < 6) × (flag ≡ some (2 ^ k)) × (number ≡ some k))

math_required-index : (op : MathOp) → SameIndex (math_required op) (math_index op)
unfolding math_required
math_required-index math_add = inr (0, omega arith, refl, refl)
math_required-index math_sub = inr (1, omega arith, refl, refl)
math_required-index math_mul = inr (2, omega arith, refl, refl)
math_required-index math_div = inr (3, omega arith, refl, refl)
math_required-index (math_unnamed n) = inl (refl, refl)

str_required-index : (op : StrOp) → SameIndex (str_required op) (str_index op)
unfolding str_required
str_required-index str_concat = inr (4, omega arith, refl, refl)
str_required-index str_find_start = inr (5, omega arith, refl, refl)
str_required-index (str_unnamed n) = inl (refl, refl)

required-index : (p : Payload) → SameIndex (required p) (index p)
unfolding required
required-index payload_not_set = inl (refl, refl)
required-index (math args) = math_required-index args.op
required-index (str args) = str_required-index args.op

-- A request passes the test exactly when it names an operation whose bit the mask has.
pub client_has_capability_for_iff :
    (p : Payload) (caps : ℕ)
    → caps < 256
    → (client_has_capability_for p caps ≡ true) ↔ Granted p caps
unfolding client_has_capability_for
client_has_capability_for_iff p caps h = elim (required-index p) [
  | inl (r, i) ↦ rw (r, client_has_capability_for) ((λ e. cc), (λ g. cc))
  | inr (k, lt, r, i) ↦
      let e = flag_bit k caps lt h in
      rw (r, client_has_capability_for)
        (
          (λ g. (k, i, (==_iff _ _).0 (ground (arith, e)))),
          (λ g. e ∙ (==_iff _ _).1 (let e' : g.0 ≡ k = cc in rw e' at g.2)),
        )
]
