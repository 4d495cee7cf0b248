-- ===== src/Client/Scan.antt =====
-- What `Application::run` of the client uses of the C library to read its lines: `fgets`, the
-- conversions of `sscanf`, and `strtoull`.
pub mod Words
pub mod Laws
use inter_process_communicat.Base.{
  ℕ, zero, suc, ◌+◌, ◌-◌, ◌%◌, ◌^◌, ◌<◌, Bool, true, false, ◌&&◌, ◌||◌, Option, none, some, List,
  [], ◌∷◌, Outcome, undefined, defined, ◌>>=◌, ltb, leb, length, ◌==◌, if◌then◌else◌,
}
use inter_process_communicat.Base.Int.{ℤ, pos, sub_ℕ, fits_int32}
use inter_process_communicat.Base.Text.{is_digit, read_digits}
use inter_process_communicat.Protocol.{Bytes}

-- Up to `room` bytes, to the end of a line at most, and what is left.
unfoldable pub take_line : ℕ → Bytes → Bytes × Bytes
take_line zero s = ([], s)
take_line (suc room) [] = ([], [])
take_line (suc room) (c ∷ s) =
    let (line, rest) = take_line room s in if c == 10 then (10 ∷ [], s) else (c ∷ line, rest)

-- `fgets(line, 512, stdin)`; `none` is a null pointer.
unfoldable pub fgets : Bytes → Option (Bytes × Bytes)
fgets [] = none
fgets (c ∷ s) = some (take_line 511 (c ∷ s))

-- The C string that bytes hold: what stands before the first NUL.
unfoldable pub c_string : Bytes → Bytes
c_string [] = []
c_string (c ∷ s) = if c == 0 then [] else c ∷ c_string s

-- A newline at the end is cut off.
unfoldable pub chomp : Bytes → Bytes
chomp [] = []
chomp (c ∷ []) = if c == 10 then [] else c ∷ []
chomp (c ∷ d ∷ s) = c ∷ chomp (d ∷ s)

-- `isspace` of the "C" locale.
abbrev pub is_space : ℕ → Bool
is_space c = c == 32 || (leb 9 c && leb c 13)

unfoldable pub skip_space : Bytes → Bytes
skip_space [] = []
skip_space (c ∷ s) = if is_space c then skip_space s else c ∷ s

-- Up to `room` bytes that are no space, and what is left.
unfoldable pub take_word : ℕ → Bytes → Bytes × Bytes
take_word zero s = ([], s)
take_word (suc room) [] = ([], [])
take_word (suc room) (c ∷ s) =
    let (word, rest) = take_word room s in if is_space c then ([], c ∷ s) else (c ∷ word, rest)

unfoldable pub word_at : ℕ → Bytes → Option (Bytes × Bytes)
word_at room [] = none
word_at room (c ∷ s) = some (take_word room (c ∷ s))

-- What `%31s` and the like match, `%*31s` without keeping it; `none` at the end of the text.
unfoldable pub next_word : ℕ → Bytes → Option (Bytes × Bytes)
unfolding skip_space take_word word_at
next_word room s = word_at room (skip_space s)

-- A word is stored with a NUL behind it; more bytes than the array has are undefined.
unfoldable pub store : ℕ → Option (Bytes × Bytes) → Outcome (Option (Bytes × Bytes))
store size none = defined none
store size (some (word, rest)) =
    if ltb (length word) size then defined (some (word, rest)) else undefined

-- `%31s` and the like, of width `room`, into a `char` array of `size` bytes.
unfoldable pub scan_word : ℕ → ℕ → Bytes → Outcome (Option (Bytes × Bytes))
unfolding next_word store
scan_word size room s = store size (next_word room s)

-- Digits after a sign, as what is before and after 0, and the rest.
unfoldable pub digits_at : Bytes → Option (ℕ × Bytes)
digits_at [] = none
digits_at (c ∷ s) = if is_digit c then some (read_digits 0 (c ∷ s)) else none

abbrev pub with_sign : Bool → Option (ℕ × Bytes) → Option (Bool × ℕ × Bytes)
with_sign minus none = none
with_sign minus (some (n, s)) = some (minus, n, s)

unfoldable pub signed_at : Bytes → Option (Bool × ℕ × Bytes)
signed_at [] = none
signed_at (c ∷ s) =
    if c == 45
    then with_sign true (digits_at s)
    else if c == 43
    then with_sign false (digits_at s)
    else with_sign false (digits_at (c ∷ s))

-- A decimal number with an optional sign: whether that is a minus, its digits, and the rest.
unfoldable pub scan_number : Bytes → Option (Bool × ℕ × Bytes)
unfolding skip_space digits_at signed_at read_digits
scan_number s = signed_at (skip_space s)

-- `%d`; a number outside `int` is undefined.
unfoldable pub int_of : Option (Bool × ℕ × Bytes) → Outcome (Option (ℤ × Bytes))
int_of none = defined none
int_of (some (minus, n, s)) =
    let v = if minus then sub_ℕ 0 n else pos n in
    if fits_int32 v then defined (some (v, s)) else undefined

unfoldable pub scan_int : Bytes → Outcome (Option (ℤ × Bytes))
unfolding scan_number int_of
scan_int s = int_of (scan_number s)

-- `%u`: a minus wraps around, as in `strtoul`; 2 ^ 32 and more behind the sign is undefined.
unfoldable pub unsigned_of : Option (Bool × ℕ × Bytes) → Outcome (Option ℕ)
unsigned_of none = defined none
unsigned_of (some (minus, n, s)) =
    if ltb n (2 ^ 32)
    then defined (some (if minus then (2 ^ 32 - n) % 2 ^ 32 else n))
    else undefined

unfoldable pub scan_unsigned : Bytes → Outcome (Option ℕ)
unfolding scan_number unsigned_of
scan_unsigned s = unsigned_of (scan_number s)

-- `strtoull(s, nullptr, 10)`: 0 without digits, the greatest number for one that is too large, and a
-- minus wraps around.
unfoldable pub unsigned_long : Option (Bool × ℕ × Bytes) → ℕ
unsigned_long none = 0
unsigned_long (some (minus, n, s)) =
    if ltb n (2 ^ 64) then (if minus then (2 ^ 64 - n) % 2 ^ 64 else n) else 2 ^ 64 - 1

unfoldable pub strtoull : Bytes → ℕ
unfolding scan_number unsigned_long
strtoull s = unsigned_long (scan_number s)
