-- ===== src/Client/Commands/Lines.antt =====
-- A line that is read.
use inter_process_communicat.Base.{
  ℕ, zero, suc, ◌<◌, ◌≡◌, refl, ap, Bool, true, false, not, ◌&&◌, some, [], ◌∷◌, ◌++◌, length,
  arith, ◌==◌,
}
use inter_process_communicat.Protocol.{Bytes}
use inter_process_communicat.Client.Scan.{take_line, fgets, c_string, chomp}
use inter_process_communicat.Client.Commands.{read_line}

-- No byte of the text is a NUL or a newline.
abbrev pub IsLine : Bytes → Type 0
IsLine [] = Unit
IsLine (c ∷ s) = ((c == 0) ≡ false) × ((c == 10) ≡ false) × IsLine s

take_line-text :
    (room : ℕ) (t rest : Bytes)
    → IsLine t
    → length t < room
    → take_line room (t ++ (10 ∷ rest)) ≡ (t ++ (10 ∷ []), rest)
unfolding take_line
take_line-text zero t rest h l = absurd (omega arith)
take_line-text (suc room) [] rest h l = refl
take_line-text (suc room) (c ∷ t) rest (z, nl, h) l =
    rw (nl, take_line-text room t rest h (omega arith)) refl

c_string-text : (t : Bytes) → IsLine t → c_string (t ++ (10 ∷ [])) ≡ t ++ (10 ∷ [])
unfolding c_string
c_string-text [] h = refl
c_string-text (c ∷ t) (z, nl, h) = rw (z, c_string-text t h) refl

chomp-newline : (t : Bytes) → chomp (t ++ (10 ∷ [])) ≡ t
unfolding chomp
chomp-newline [] = refl
chomp-newline (c ∷ []) = refl
chomp-newline (c ∷ d ∷ t) = ap (λ u. c ∷ u) (chomp-newline (d ∷ t))

fgets-text :
    (t rest : Bytes)
    → IsLine t
    → length t < 511
    → fgets (t ++ (10 ∷ rest)) ≡ some (t ++ (10 ∷ []), rest)
unfolding fgets
fgets-text [] rest h l = ap some (take_line-text 511 [] rest h l)
fgets-text (c ∷ t) rest h l = ap some (take_line-text 511 (c ∷ t) rest h l)

-- A line of at most 510 bytes without a NUL is read whole, without its newline, and what follows it is
-- left to read.
pub read_line-text :
    (t rest : Bytes) → IsLine t → length t < 511 → read_line (t ++ (10 ∷ rest)) ≡ some (t, rest)
unfolding read_line
read_line-text t rest h l = rw (fgets-text t rest h l, c_string-text t h, chomp-newline t) refl

-- The same as a test.
abbrev pub is_line : Bytes → Bool
is_line [] = true
is_line (c ∷ s) = not (c == 0) && not (c == 10) && is_line s

pub is_line-IsLine : (t : Bytes) → is_line t ≡ true → IsLine t
is_line-IsLine [] h = tt
is_line-IsLine (c ∷ s) h = (ground arith, ground arith, is_line-IsLine s (ground arith))
