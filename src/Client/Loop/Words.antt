-- ===== src/Client/Loop/Words.antt =====
-- Words that ask for a mode, for an operation, or for neither.
use inter_process_communicat.Base.{
  ℕ, some, ◌≡◌, refl, ◌∙◌, Bool, true, false, not, ◌&&◌, ◌||◌, Bool-cases, inl, inr, [], ◌∷◌, arith,
  ◌==◌,
}
use inter_process_communicat.Base.Eq.{nat_eq}
use inter_process_communicat.Base.Text.{codes}
use inter_process_communicat.Protocol.{Bytes}
use inter_process_communicat.Protocol.{wait_up_to}
use inter_process_communicat.Client.Tokens.{
  insensitive_equals, is_nonblock_token, is_block_token, insensitive_equals_iff,
  insensitive_equals-same, is_block_token-same, is_nonblock_token-same,
}
use inter_process_communicat.Client.Commands.{wait_named, is_math_word}
use inter_process_communicat.Client.Commands.Laws.{spaced}

-- The word names a mode.
abbrev pub IsMode : Bytes → Type 0
IsMode w = (is_nonblock_token w || is_block_token w) ≡ true

abbrev is_solid : Bytes → Bool
is_solid [] = true
is_solid (c ∷ s) = not (c == 32) && is_solid s

-- A text with a space is no word without one.
pub insensitive_equals-spaced :
    (w s k : Bytes) → is_solid k ≡ true → insensitive_equals (spaced w s) k ≡ false
unfolding insensitive_equals
insensitive_equals-spaced [] s [] h = refl
insensitive_equals-spaced [] s (x ∷ k) h = ground arith
insensitive_equals-spaced (c ∷ w) s [] h = refl
insensitive_equals-spaced (c ∷ w) s (x ∷ k) h = ground (arith, insensitive_equals-spaced w s k)

pub not_mode :
    (w k : Bytes)
    → (is_nonblock_token k || is_block_token k) ≡ false
    → IsMode w
    → insensitive_equals w k ≡ false
not_mode w k h m = elim (Bool-cases (insensitive_equals w k)) [
  | inl e ↦ let a = is_block_token-same w k e in let b = is_nonblock_token-same w k e in absurd (cc)
  | inr e ↦ e
]

pub get_no_mode : (is_nonblock_token (codes "get") || is_block_token (codes "get")) ≡ false
unfolding is_nonblock_token is_block_token insensitive_equals
get_no_mode = refl

pub list_no_mode : (is_nonblock_token (codes "list") || is_block_token (codes "list")) ≡ false
unfolding is_nonblock_token is_block_token insensitive_equals
list_no_mode = refl

pub not_math :
    (o k : Bytes) → is_math_word k ≡ false → insensitive_equals o k ≡ true → is_math_word o ≡ false
unfolding is_math_word
not_math o k none_of e =
    let same = (insensitive_equals_iff o k).0 e in
    cc (
      none_of,
      insensitive_equals-same o k (codes "add") same,
      insensitive_equals-same o k (codes "sub") same,
      insensitive_equals-same o k (codes "mult") same,
      insensitive_equals-same o k (codes "div") same,
    )

pub concat_no_math : is_math_word (codes "concat") ≡ false
unfolding is_math_word insensitive_equals
concat_no_math = refl

pub find_no_math : is_math_word (codes "find") ≡ false
unfolding is_math_word insensitive_equals
find_no_math = refl

find_is_no_concat : insensitive_equals (codes "find") (codes "concat") ≡ false
unfolding insensitive_equals
find_is_no_concat = refl

pub find_no_concat :
    (o : Bytes)
    → insensitive_equals o (codes "find") ≡ true
    → insensitive_equals o (codes "concat") ≡ false
find_no_concat o e =
    insensitive_equals-same o (codes "find") (codes "concat")
      ((insensitive_equals_iff o (codes "find")).0 e)
    ∙ find_is_no_concat

pub some_mode : (a b : Bool) → (a || b) ≡ true → (not a && not b) ≡ false
some_mode true b h = refl
some_mode false true h = refl
some_mode false false h = absurd (cc)

wait_is_no_nowait : insensitive_equals (codes "wait") (codes "nowait") ≡ false
unfolding insensitive_equals
wait_is_no_nowait = refl

-- `wait` as a user may spell it.
pub wait_named-wait :
    (v : Bytes) (ms : ℕ)
    → insensitive_equals v (codes "wait") ≡ true
    → wait_named v ms ≡ some (wait_up_to, ms)
unfolding wait_named
wait_named-wait v ms wait =
    let other =
      insensitive_equals-same v (codes "wait") (codes "nowait")
        ((insensitive_equals_iff v (codes "wait")).0 wait)
      ∙ wait_is_no_nowait in
    rw (other, wait) refl
