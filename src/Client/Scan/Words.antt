-- ===== src/Client/Scan/Words.antt =====
-- Words that are read back from a line.
use inter_process_communicat.Base.{
  ℕ, zero, suc, ◌≤◌, ◌<◌, ltb, defined, ◌≡◌, refl, ap, true, false, some, [], ◌∷◌, ◌++◌, length,
  arith,
}
use inter_process_communicat.Protocol.{Bytes}
use inter_process_communicat.Client.Scan.{
  is_space, skip_space, take_word, word_at, next_word, store, scan_word,
}

-- No byte of the text is a space.
abbrev pub NoSpace : Bytes → Type 0
NoSpace [] = Unit
NoSpace (c ∷ s) = (is_space c ≡ false) × NoSpace s

-- A text that ends there, or goes on with a space.
abbrev pub Stops : Bytes → Type 0
Stops [] = Unit
Stops (c ∷ s) = is_space c ≡ true

take_word-append :
    (room : ℕ) (w rest : Bytes)
    → NoSpace w
    → length w ≤ room
    → Stops rest
    → take_word room (w ++ rest) ≡ (w, rest)
unfolding take_word
take_word-append zero [] rest n l st = refl
take_word-append (suc room) [] [] n l st = refl
take_word-append (suc room) [] (c ∷ rest) n l st = rw st refl
take_word-append zero (c ∷ w) rest n l st = absurd (omega arith)
take_word-append (suc room) (c ∷ w) rest (n, ns) l st =
    rw (n, take_word-append room w rest ns (omega arith) st) refl

-- A word at the head of a text, behind one space, is scanned whole.
pub next_word-append :
    (room : ℕ) (c : ℕ) (w rest : Bytes)
    → NoSpace (c ∷ w)
    → length (c ∷ w) ≤ room
    → Stops rest
    → next_word room (c ∷ w ++ rest) ≡ some (c ∷ w, rest)
unfolding next_word skip_space word_at
next_word-append room c w rest n l st = rw n.0 (ap some (take_word-append room (c ∷ w) rest n l st))

-- A word that fits its array is stored.
pub scan_word-append :
    (size room : ℕ) (c : ℕ) (w rest : Bytes)
    → room < size
    → NoSpace (c ∷ w)
    → length (c ∷ w) ≤ room
    → Stops rest
    → scan_word size room (c ∷ w ++ rest) ≡ defined (some (c ∷ w, rest))
unfolding scan_word store
scan_word-append size room c w rest fits n l st =
    let small : ltb (length (c ∷ w)) size ≡ true = ground arith in
    rw (next_word-append room c w rest n l st, small) refl

pub next_word-space : (room : ℕ) (s : Bytes) → next_word room (32 ∷ s) ≡ next_word room s
unfolding next_word skip_space
next_word-space room s = refl

pub scan_word-space :
    (size room : ℕ) (s : Bytes) → scan_word size room (32 ∷ s) ≡ scan_word size room s
unfolding scan_word
scan_word-space size room s = ap (λ o. store size o) (next_word-space room s)

take_word-length : (room : ℕ) (s : Bytes) → length (take_word room s).0 ≤ room
unfolding take_word
take_word-length zero s = omega arith
take_word-length (suc room) [] = omega arith
take_word-length (suc room) (c ∷ s) = ground (arith, take_word-length room s)

word_at-stored :
    (size room : ℕ) (s : Bytes)
    → room < size
    → store size (word_at room s) ≡ defined (word_at room s)
unfolding store word_at
word_at-stored size room [] h = refl
word_at-stored size room (c ∷ s) h =
    let l = take_word-length room (c ∷ s) in
    let small : ltb (length (take_word room (c ∷ s)).0) size ≡ true = ground arith in rw small refl

-- A width below the size of the array keeps every word inside it.
pub scan_word-fits :
    (size room : ℕ) (s : Bytes) → room < size → scan_word size room s ≡ defined (next_word room s)
unfolding scan_word next_word
scan_word-fits size room s h = word_at-stored size room (skip_space s) h
