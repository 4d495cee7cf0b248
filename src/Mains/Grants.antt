-- ===== src/Mains/Grants.antt =====
-- What the masks of the two clients grant.
use inter_process_communicat.Base.{◌≡◌, refl, Bool, true, false}
use inter_process_communicat.Base.Int.{ℤ}
use inter_process_communicat.Protocol.{
  Bytes, MathOp, math_add, math_sub, math_mul, math_div, math_unnamed, StrOp, str_concat,
  str_find_start, str_unnamed, Payload, payload_not_set, math, str,
}
use inter_process_communicat.Caps.{math_required, str_required, required, client_has_capability_for}
use inter_process_communicat.Mains.ClientMain.{client_1_flags, client_2_flags}

-- The operations that the README lists for client 1 and for client 2.
abbrev pub supported_1 : Payload → Bool
supported_1 payload_not_set = false
supported_1 (math args) = elim args.op [
  | math_add ↦ true
  | math_sub ↦ false
  | math_mul ↦ true
  | math_div ↦ false
  | math_unnamed n ↦ false
]
supported_1 (str args) = elim args.op [
  | str_concat ↦ true
  | str_find_start ↦ false
  | str_unnamed n ↦ false
]

abbrev pub supported_2 : Payload → Bool
supported_2 payload_not_set = false
supported_2 (math args) = elim args.op [
  | math_add ↦ false
  | math_sub ↦ true
  | math_mul ↦ false
  | math_div ↦ true
  | math_unnamed n ↦ false
]
supported_2 (str args) = elim args.op [
  | str_concat ↦ false
  | str_find_start ↦ true
  | str_unnamed n ↦ false
]

math_supported :
    (op : MathOp) (a b : ℤ)
    → let p = math (record { op = op; a = a; b = b }) in
      (client_has_capability_for p client_1_flags ≡ supported_1 p)
      × (client_has_capability_for p client_2_flags ≡ supported_2 p)
unfolding client_has_capability_for required math_required
math_supported math_add a b = (refl, refl)
math_supported math_sub a b = (refl, refl)
math_supported math_mul a b = (refl, refl)
math_supported math_div a b = (refl, refl)
math_supported (math_unnamed n) a b = (refl, refl)

str_supported :
    (op : StrOp) (s1 s2 : Bytes)
    → let p = str (record { op = op; s1 = s1; s2 = s2 }) in
      (client_has_capability_for p client_1_flags ≡ supported_1 p)
      × (client_has_capability_for p client_2_flags ≡ supported_2 p)
unfolding client_has_capability_for required str_required
str_supported str_concat s1 s2 = (refl, refl)
str_supported str_find_start s1 s2 = (refl, refl)
str_supported (str_unnamed n) s1 s2 = (refl, refl)

-- With the masks that the two programs hand over, the server lets client 1 request exactly additions,
-- products and concatenations, and client 2 exactly differences, quotients and searches.
pub client_has_capability_for-supported :
    (p : Payload)
    → (client_has_capability_for p client_1_flags ≡ supported_1 p)
      × (client_has_capability_for p client_2_flags ≡ supported_2 p)
unfolding client_has_capability_for required
client_has_capability_for-supported payload_not_set = (refl, refl)
client_has_capability_for-supported (math args) = math_supported args.op args.a args.b
client_has_capability_for-supported (str args) = str_supported args.op args.s1 args.s2
