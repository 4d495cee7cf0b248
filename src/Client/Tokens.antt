-- ===== src/Client/Tokens.antt =====
-- `insensitiveEquals`, the tests of the mode, and the requests that `Application::run` builds
-- (sources/client/application.cpp). A C string is the list of its bytes before the NUL; `tolower` is
-- that of the "C" locale, which the program does not leave.
use inter_process_communicat.Base.{
  ℕ, ◌+◌, ◌≡◌, refl, sym, ◌∙◌, ◌↔◌, Bool, true, false, ◌&&◌, ◌||◌, [], ◌∷◌, map, arith, leb, ◌==◌,
  if◌then◌else◌, Bool-cases, inl, inr,
}
use inter_process_communicat.Base.Int.{ℤ}
use inter_process_communicat.Protocol.{Bytes, MathOp, StrOp, SubmitRequest, blocking, math, str}

abbrev pub tolower : ℕ → ℕ
tolower c = if leb 65 c && leb c 90 then c + 32 else c

unfoldable pub insensitive_equals : Bytes → Bytes → Bool
insensitive_equals [] [] = true
insensitive_equals [] (y ∷ b) = false
insensitive_equals (x ∷ a) [] = false
insensitive_equals (x ∷ a) (y ∷ b) =
    if tolower x == tolower y then insensitive_equals a b else false

-- "block", "blocking" and "sync".
abbrev block : Bytes
block = 98 ∷ 108 ∷ 111 ∷ 99 ∷ 107 ∷ []

abbrev blocking_word : Bytes
blocking_word = 98 ∷ 108 ∷ 111 ∷ 99 ∷ 107 ∷ 105 ∷ 110 ∷ 103 ∷ []

abbrev sync : Bytes
sync = 115 ∷ 121 ∷ 110 ∷ 99 ∷ []

-- "non-block", "nonblock", "non_block" and "async".
abbrev non_dash_block : Bytes
non_dash_block = 110 ∷ 111 ∷ 110 ∷ 45 ∷ block

abbrev nonblock : Bytes
nonblock = 110 ∷ 111 ∷ 110 ∷ block

abbrev non_block : Bytes
non_block = 110 ∷ 111 ∷ 110 ∷ 95 ∷ block

abbrev async : Bytes
async = 97 ∷ sync

unfoldable pub is_nonblock_token : Bytes → Bool
is_nonblock_token s =
    insensitive_equals s non_dash_block
    || insensitive_equals s nonblock
    || insensitive_equals s non_block
    || insensitive_equals s async

unfoldable pub is_block_token : Bytes → Bool
is_block_token s =
    insensitive_equals s block || insensitive_equals s blocking_word || insensitive_equals s sync

-- The mode of a new request is the first one, which `submitBlocking` or `submitNonBlocking` overwrites.
abbrev pub make_math : MathOp → ℤ → ℤ → SubmitRequest
make_math op a b = record { mode = blocking; payload = math (record { op = op; a = a; b = b }) }

abbrev pub make_str : StrOp → Bytes → Bytes → SubmitRequest
make_str op s1 s2 = record { mode = blocking; payload = str (record { op = op; s1 = s1; s2 = s2 }) }

-- `insensitiveEquals` holds of two strings exactly when they are equal after their upper case letters
-- are made lower case.
pub insensitive_equals_iff :
    (a b : Bytes) → (insensitive_equals a b ≡ true) ↔ (map tolower a ≡ map tolower b)
unfolding insensitive_equals
insensitive_equals_iff [] [] = ((λ h. refl), (λ h. refl))
insensitive_equals_iff [] (y ∷ b) = ((λ h. absurd (cc)), (λ h. absurd (cc)))
insensitive_equals_iff (x ∷ a) [] = ((λ h. absurd (cc)), (λ h. absurd (cc)))
insensitive_equals_iff (x ∷ a) (y ∷ b) = ground (arith, insensitive_equals_iff a b)

pub insensitive_equals-same :
    (a b c : Bytes)
    → map tolower a ≡ map tolower b
    → insensitive_equals a c ≡ insensitive_equals b c
insensitive_equals-same a b c h = elim (Bool-cases (insensitive_equals b c)) [
  | inl hit ↦ (insensitive_equals_iff a c).1 (h ∙ (insensitive_equals_iff b c).0 hit) ∙ sym hit
  | inr miss ↦ elim (Bool-cases (insensitive_equals a c)) [
    | inl hit ↦
        let e = (insensitive_equals_iff b c).1 (sym h ∙ (insensitive_equals_iff a c).0 hit) in
        absurd (cc)
    | inr no_hit ↦ no_hit ∙ sym miss
  ]
]

pub is_block_token-same :
    (a b : Bytes) → insensitive_equals a b ≡ true → is_block_token a ≡ is_block_token b
unfolding is_block_token
is_block_token-same a b h =
    let e = (insensitive_equals_iff a b).0 h in
    cc (
      insensitive_equals-same a b block e,
      insensitive_equals-same a b blocking_word e,
      insensitive_equals-same a b sync e,
    )

pub is_nonblock_token-same :
    (a b : Bytes) → insensitive_equals a b ≡ true → is_nonblock_token a ≡ is_nonblock_token b
unfolding is_nonblock_token
is_nonblock_token-same a b h =
    let e = (insensitive_equals_iff a b).0 h in
    cc (
      insensitive_equals-same a b non_dash_block e,
      insensitive_equals-same a b nonblock e,
      insensitive_equals-same a b non_block e,
      insensitive_equals-same a b async e,
    )

-- No word that asks for the non-blocking mode asks for the blocking one too.
pub tokens_disjoint : (s : Bytes) → is_nonblock_token s ≡ true → is_block_token s ≡ false
unfolding is_nonblock_token is_block_token insensitive_equals
tokens_disjoint s h = elim (Bool-cases (insensitive_equals s non_dash_block)) [
  | inl e ↦ is_block_token-same s non_dash_block e
  | inr no_1 ↦ elim (Bool-cases (insensitive_equals s nonblock)) [
    | inl e ↦ is_block_token-same s nonblock e
    | inr no_2 ↦ elim (Bool-cases (insensitive_equals s non_block)) [
      | inl e ↦ is_block_token-same s non_block e
      | inr no_3 ↦ is_block_token-same s async (rw (no_1, no_2, no_3) at h)
    ]
  ]
]
