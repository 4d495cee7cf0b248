-- ===== src/Client/Commands/Laws.antt =====
-- The words and numbers of a command are read back from its line.
use inter_process_communicat.Base.{
  ℕ, ◌^◌, ◌≤◌, ◌<◌, ◌≡◌, refl, ap, sym, subst, ◌∙◌, none, some, [], ◌∷◌, ◌++◌, append-nil, length,
  arith, defined,
}
use inter_process_communicat.Base.Int.{ℤ, IsInt32}
use inter_process_communicat.Base.Text.{decimal, decimal_ℤ}
use inter_process_communicat.Protocol.{Bytes}
use inter_process_communicat.Client.Scan.{
  skip_space, word_at, scan_number, next_word, store, scan_word, scan_int, scan_unsigned,
}
use inter_process_communicat.Client.Scan.Words.{
  NoSpace, Stops, next_word-append, next_word-space, scan_word-append, scan_word-space,
}
use inter_process_communicat.Client.Scan.Laws.{
  scan_int-decimal_ℤ, scan_unsigned-decimal, decimal_word,
}
use inter_process_communicat.Client.Commands.{
  after_word, ticket_only, with_ms, get_wait, get_ticket, scan_get, second_word, scan_mode,
  second_int, scan_ints, second_text, scan_texts,
}

-- A word of at most `room` bytes.
abbrev pub IsWord : ℕ → Bytes → Type 0
IsWord room w = (0 < length w) × NoSpace w × (length w ≤ room)

-- Two parts of a line, with a space between them.
abbrev pub spaced : Bytes → Bytes → Bytes
spaced w s = w ++ (32 ∷ s)

pub next_word-word :
    (room : ℕ) (w rest : Bytes)
    → IsWord room w
    → Stops rest
    → next_word room (w ++ rest) ≡ some (w, rest)
next_word-word room [] rest (p, n, l) st = absurd (omega arith)
next_word-word room (c ∷ w) rest (p, n, l) st = next_word-append room c w rest n l st

-- A word with a place of its size is stored.
pub scan_word-word :
    (size room : ℕ) (w rest : Bytes)
    → room < size
    → IsWord room w
    → Stops rest
    → scan_word size room (w ++ rest) ≡ defined (some (w, rest))
scan_word-word size room [] rest fits (p, n, l) st = absurd (omega arith)
scan_word-word size room (c ∷ w) rest fits (p, n, l) st =
    scan_word-append size room c w rest fits n l st

scan_word-end : (size room : ℕ) → scan_word size room [] ≡ defined none
unfolding scan_word store next_word skip_space word_at
scan_word-end size room = refl

after_word-word : (w rest : Bytes) → IsWord 31 w → Stops rest → after_word (w ++ rest) ≡ rest
unfolding after_word
after_word-word w rest h st = rw (next_word-word 31 w rest h st) refl

after_word-space : (s : Bytes) → after_word (32 ∷ s) ≡ after_word s
unfolding after_word
after_word-space s = rw (next_word-space 31 s) refl

-- What stands behind two words.
after_words :
    (w o rest : Bytes)
    → IsWord 31 w
    → IsWord 31 o
    → Stops rest
    → after_word (after_word (spaced w (o ++ rest))) ≡ rest
after_words w o rest hw ho st =
    ap after_word (after_word-word w (32 ∷ (o ++ rest)) hw refl)
    ∙ after_word-space (o ++ rest)
    ∙ after_word-word o rest ho st

pub scan_mode-words :
    (w o rest : Bytes)
    → IsWord 31 w
    → IsWord 31 o
    → Stops rest
    → scan_mode (spaced w (o ++ rest)) ≡ defined (some (w, o))
unfolding scan_mode second_word
scan_mode-words w o rest hw ho st =
    rw
      (
        scan_word-word 32 31 w (32 ∷ (o ++ rest)) (omega arith) hw refl,
        scan_word-space 32 31 (o ++ rest),
        scan_word-word 32 31 o rest (omega arith) ho st,
      )
      refl

scan_int-space : (s : Bytes) → scan_int (32 ∷ s) ≡ scan_int s
unfolding scan_int scan_number skip_space
scan_int-space s = refl

pub scan_ints-words :
    (w o : Bytes) (a b : ℤ)
    → IsWord 31 w
    → IsWord 31 o
    → IsInt32 a
    → IsInt32 b
    → scan_ints (spaced w (spaced o (spaced (decimal_ℤ a) (decimal_ℤ b)))) ≡ defined (some (a, b))
unfolding scan_ints second_int
scan_ints-words w o a b hw ho ha hb =
    let last = ap scan_int (sym (append-nil (decimal_ℤ b))) ∙ scan_int-decimal_ℤ b [] hb tt in
    rw
      (
        after_words w o (32 ∷ (decimal_ℤ a ++ (32 ∷ decimal_ℤ b))) hw ho refl,
        scan_int-space (decimal_ℤ a ++ (32 ∷ decimal_ℤ b)),
        scan_int-decimal_ℤ a (32 ∷ decimal_ℤ b) ha refl,
        scan_int-space (decimal_ℤ b),
        last,
      )
      refl

pub scan_texts-words :
    (w o s1 s2 : Bytes)
    → IsWord 31 w
    → IsWord 31 o
    → IsWord 63 s1
    → IsWord 63 s2
    → scan_texts (spaced w (spaced o (spaced s1 s2))) ≡ defined (some (s1, s2))
unfolding scan_texts second_text
scan_texts-words w o s1 s2 hw ho h1 h2 =
    let last =
      ap (scan_word 64 63) (sym (append-nil s2)) ∙ scan_word-word 64 63 s2 [] (omega arith) h2 tt in
    rw
      (
        after_words w o (32 ∷ (s1 ++ (32 ∷ s2))) hw ho refl,
        scan_word-space 64 63 (s1 ++ (32 ∷ s2)),
        scan_word-word 64 63 s1 (32 ∷ s2) (omega arith) h1 refl,
        scan_word-space 64 63 s2,
        last,
      )
      refl

decimal-IsWord : (room n : ℕ) → n < 10 ^ 20 → 20 ≤ room → IsWord room (decimal n)
decimal-IsWord room n h l =
    let (c, t, start, no_space, size) = decimal_word n h in
    subst (IsWord room) (sym start) (omega arith, no_space, omega arith)

pub scan_get-ticket :
    (w : Bytes) (n : ℕ)
    → IsWord 31 w
    → n < 10 ^ 20
    → scan_get (spaced w (decimal n)) ≡ defined (ticket_only (decimal n))
unfolding scan_get get_ticket get_wait
scan_get-ticket w n hw h =
    let last =
      ap (scan_word 64 63) (sym (append-nil (decimal n)))
      ∙ scan_word-word 64 63 (decimal n) [] (omega arith) (decimal-IsWord 63 n h (omega arith))
          tt in
    rw
      (
        after_word-word w (32 ∷ decimal n) hw refl,
        scan_word-space 64 63 (decimal n),
        last,
        scan_word-end 32 31,
      )
      refl

scan_unsigned-space : (s : Bytes) → scan_unsigned (32 ∷ s) ≡ scan_unsigned s
unfolding scan_unsigned scan_number skip_space
scan_unsigned-space s = refl

pub scan_get-ms :
    (w v : Bytes) (n ms : ℕ)
    → IsWord 31 w
    → IsWord 31 v
    → n < 10 ^ 20
    → ms < 2 ^ 32
    → scan_get (spaced w (spaced (decimal n) (spaced v (decimal ms))))
      ≡ defined (with_ms (decimal n) v ms)
unfolding scan_get get_ticket get_wait
scan_get-ms w v n ms hw hv h hms =
    rw
      (
        after_word-word w (32 ∷ spaced (decimal n) (spaced v (decimal ms))) hw refl,
        scan_word-space 64 63 (spaced (decimal n) (spaced v (decimal ms))),
        scan_word-word 64 63 (decimal n) (32 ∷ spaced v (decimal ms)) (omega arith)
            (decimal-IsWord 63 n h (omega arith)) refl,
        scan_word-space 32 31 (spaced v (decimal ms)),
        scan_word-word 32 31 v (32 ∷ decimal ms) (omega arith) hv refl,
        scan_unsigned-space (decimal ms),
        scan_unsigned-decimal ms hms,
      )
      refl
