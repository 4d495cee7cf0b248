-- ===== src/Client/Loop/Undefined.antt =====
-- Which lines lead the client into undefined behaviour.
use inter_process_communicat.Base.{
  ℕ, ◌^◌, ◌≤◌, ◌≡◌, refl, ◌⊎◌, inl, inr, Bool, true, false, not, ◌&&◌, ◌||◌, Outcome-cases, Option,
  none, some, [], ◌∷◌, arith, Outcome, undefined, defined, ◌>>=◌, if◌then◌else◌,
}
use inter_process_communicat.Base.Int.{ℤ, pos, sub_ℕ, IsInt32, IsInt32→fits_int32}
use inter_process_communicat.Base.Text.{codes}
use inter_process_communicat.Protocol.{Bytes}
use inter_process_communicat.Client.{ClientCodec}
use inter_process_communicat.Client.Tokens.{insensitive_equals, is_nonblock_token, is_block_token}
use inter_process_communicat.Client.Scan.{
  scan_number, int_of, scan_int, unsigned_of, scan_unsigned, next_word,
}
use inter_process_communicat.Client.Scan.Words.{scan_word-fits}
use inter_process_communicat.Client.Commands.{
  scan_texts, after_word, get_wait, get_ticket, scan_get, second_int, scan_ints, scan_mode,
  is_math_word,
}
use inter_process_communicat.Client.Commands.Arrays.{scan_mode-stored, scan_texts-stored}
use inter_process_communicat.Client.Session.{Session, Prompt, Turn, Mode, mode_of}
use inter_process_communicat.Client.Loop.{on_op, on_mode, on_command, on_line}

-- A number at the head of a text that is no `int`, or that behind its sign is no `unsigned`.
abbrev pub NoInt : Bytes → Type 0
NoInt s =
    (minus : Bool) × (n : ℕ) × (rest : Bytes) × (scan_number s ≡ some (minus, n, rest))
    × ¬ IsInt32 (if minus then sub_ℕ 0 n else pos n)

abbrev pub NoUnsigned : Bytes → Type 0
NoUnsigned s =
    (minus : Bool) × (n : ℕ) × (rest : Bytes) × (scan_number s ≡ some (minus, n, rest))
    × (2 ^ 32 ≤ n)

int_of-undefined :
    (o : Option (Bool × ℕ × Bytes))
    → int_of o ≡ undefined
    → (minus : Bool) × (n : ℕ) × (rest : Bytes) × (o ≡ some (minus, n, rest))
      × ¬ IsInt32 (if minus then sub_ℕ 0 n else pos n)
unfolding int_of
int_of-undefined none e = absurd (cc)
int_of-undefined (some (minus, n, rest)) e =
    (minus, n, rest, refl, (λ h. let fits = IsInt32→fits_int32 _ h in cc))

unsigned_of-undefined :
    (o : Option (Bool × ℕ × Bytes))
    → unsigned_of o ≡ undefined
    → (minus : Bool) × (n : ℕ) × (rest : Bytes) × (o ≡ some (minus, n, rest)) × (2 ^ 32 ≤ n)
unfolding unsigned_of
unsigned_of-undefined none e = absurd (cc)
unsigned_of-undefined (some (minus, n, rest)) e = (minus, n, rest, refl, ground arith)

-- The first or the second number of an arithmetic command is no `int`.
abbrev pub BadInts : Bytes → Type 0
BadInts line =
    NoInt (after_word (after_word line))
    ⊎ ((a : ℤ) × (rest : Bytes) × (scan_int (after_word (after_word line))
          ≡ defined (some (a, rest)))
        × NoInt rest)

-- The milliseconds of a `get` are no `unsigned`.
abbrev pub BadWait : Bytes → Type 0
BadWait line =
    (ticket : Bytes) × (behind : Bytes) × (word : Bytes) × (rest : Bytes) × (next_word 63
        (after_word line)
      ≡ some (ticket, behind))
    × (next_word 31 behind ≡ some (word, rest))
    × NoUnsigned rest

bound-undefined {ℓ} :
    {A : Type ℓ} (m : Outcome A) (f : A → Turn)
    → (m >>= λ a. defined (f a)) ≡ undefined
    → m ≡ undefined
bound-undefined undefined f e = refl
bound-undefined (defined a) f e = absurd (cc)

scan_int-undefined : (s : Bytes) → scan_int s ≡ undefined → NoInt s
unfolding scan_int
scan_int-undefined s e = int_of-undefined (scan_number s) e

second_int-undefined : (a : ℤ) (rest : Bytes) → second_int (some (a, rest)) ≡ undefined → NoInt rest
unfolding second_int scan_int
second_int-undefined a rest e =
    int_of-undefined (scan_number rest) (elim (Outcome-cases (int_of (scan_number rest))) [
      | inl wild ↦ wild
      | inr (o, found) ↦ absurd (cc (rw found at e))
    ])

scan_ints-undefined : (line : Bytes) → scan_ints line ≡ undefined → BadInts line
unfolding scan_ints
scan_ints-undefined line e = elim (Outcome-cases (scan_int (after_word (after_word line)))) [
  | inl first ↦ inl (scan_int-undefined (after_word (after_word line)) first)
  | inr (o, found) ↦ inr (second o found (rw found at e))
]
  where
    second :
        (o : Option (ℤ × Bytes))
        → scan_int (after_word (after_word line)) ≡ defined o
        → second_int o ≡ undefined
        → (a : ℤ) × (rest : Bytes) × (scan_int (after_word (after_word line))
            ≡ defined (some (a, rest)))
          × NoInt rest
    second none found e = absurd (unfold second_int in cc)
    second (some (a, rest)) found e = (a, rest, found, second_int-undefined a rest e)

get_wait-undefined :
    (ticket : Bytes) (o : Option (Bytes × Bytes))
    → get_wait ticket o ≡ undefined
    → (word : Bytes) × (rest : Bytes) × (o ≡ some (word, rest)) × NoUnsigned rest
unfolding get_wait scan_unsigned
get_wait-undefined ticket none e = absurd (cc)
get_wait-undefined ticket (some (word, rest)) e =
    elim (Outcome-cases (unsigned_of (scan_number rest))) [
      | inl wild ↦ (word, rest, refl, unsigned_of-undefined (scan_number rest) wild)
      | inr (o, found) ↦ absurd (cc (rw found at e))
    ]

get_ticket-undefined :
    (o : Option (Bytes × Bytes))
    → get_ticket o ≡ undefined
    → (ticket : Bytes) × (behind : Bytes) × (word : Bytes) × (rest : Bytes) × (o
        ≡ some (ticket, behind))
      × (next_word 31 behind ≡ some (word, rest))
      × NoUnsigned rest
unfolding get_ticket
get_ticket-undefined none e = absurd (cc)
get_ticket-undefined (some (ticket, behind)) e =
    let (word, rest, second, wild) =
      get_wait-undefined ticket (next_word 31 behind)
        (rw (scan_word-fits 32 31 behind (omega arith)) at e) in
    (ticket, behind, word, rest, refl, second, wild)

scan_get-undefined : (line : Bytes) → scan_get line ≡ undefined → BadWait line
unfolding scan_get
scan_get-undefined line e =
    get_ticket-undefined (next_word 63 (after_word line))
      (rw (scan_word-fits 64 63 (after_word line) (omega arith)) at e)

either_undefined {ℓ} :
    {U : Type ℓ} (b : Bool) (x y : Outcome Turn)
    → (x ≡ undefined → U)
    → (y ≡ undefined → U)
    → (if b then x else y) ≡ undefined
    → U
either_undefined true x y hx hy e = hx e
either_undefined false x y hx hy e = hy e

module _ (codec : ClientCodec) (line : Bytes) (p : Prompt) (s : Session) where
  on_op-undefined : (mode : Mode) → on_op codec mode line p s ≡ undefined → BadInts line
  unfolding on_op
  on_op-undefined mode =
      either_undefined (is_math_word mode.op) _ _
        (λ e. scan_ints-undefined line (bound-undefined (scan_ints line) _ e))
        (either_undefined (insensitive_equals mode.op (codes "concat")) _ _ (text_stored _) (
          either_undefined (insensitive_equals mode.op (codes "find")) _ _ (text_stored _)
            (λ e. absurd (cc))))
    where
      text_stored :
          (f : Option (Bytes × Bytes) → Turn)
          → (scan_texts line >>= λ o. defined (f o)) ≡ undefined
          → BadInts line
      text_stored f e = absurd (scan_texts-stored line (bound-undefined (scan_texts line) f e))

  on_mode-undefined :
      (words : Option (Bytes × Bytes)) → on_mode codec words line p s ≡ undefined → BadInts line
  unfolding on_mode
  on_mode-undefined none e = absurd (cc)
  on_mode-undefined (some (word, op)) e =
      either_undefined (not (is_nonblock_token word) && not (is_block_token word)) _ _
        (λ e. absurd (cc)) (on_op-undefined (mode_of word op)) e

  on_command-undefined :
      (word : Option (Bytes × Bytes))
      → on_command codec word line p s ≡ undefined
      → BadWait line ⊎ BadInts line
  unfolding on_command
  on_command-undefined none e = absurd (cc)
  on_command-undefined (some (word, rest)) e =
      either_undefined (insensitive_equals word (codes "get")) _ _
        (λ e. inl (scan_get-undefined line (bound-undefined (scan_get line) _ e)))
        (either_undefined (insensitive_equals word (codes "list")) _ _ (λ e. absurd (cc))
          (λ e. elim (Outcome-cases (scan_mode line)) [
            | inl wild ↦ absurd (scan_mode-stored line wild)
            | inr (words, found) ↦ inr (on_mode-undefined words (rw found at e))
          ]))
        e

-- A line leads the client into undefined behaviour only by a number: the milliseconds of a `get` that
-- do not fit 32 bits, or an operand of an arithmetic operation that is no `int`. No word of a line,
-- however long, is written beyond the array that it is read into.
pub on_line-undefined :
    (codec : ClientCodec) (line : Bytes) (p : Prompt) (s : Session)
    → on_line codec line p s ≡ undefined
    → BadWait line ⊎ BadInts line
unfolding on_line
on_line-undefined codec [] p s e = absurd (cc)
on_line-undefined codec (c ∷ t) p s e =
    let line = c ∷ t in
    either_undefined
      (insensitive_equals line (codes "quit") || insensitive_equals line (codes "exit")) _ _
      (λ e. absurd (cc))
      (either_undefined (insensitive_equals line (codes "help")) _ _ (λ e. absurd (cc))
        (λ e.
          on_command-undefined codec line p s (next_word 31 line)
            (rw (scan_word-fits 32 31 line (omega arith)) at e)))
      e
