-- ===== src/Client/Loop/Laws.antt =====
-- What a line leaves of the session.
use inter_process_communicat.Base.{
  ℕ, zero, suc, ◌≤◌, ◌<◌, ◌≡◌, refl, subst, Bool, true, false, not, ◌&&◌, ◌||◌, Option, none, some,
  [], ◌∷◌, length, arith, Outcome, undefined, defined, ◌>>=◌, if◌then◌else◌,
}
use inter_process_communicat.Base.Eq.{nat_eq}
use inter_process_communicat.Base.Text.{codes}
use inter_process_communicat.Protocol.{Bytes, StrOp}
use inter_process_communicat.Client.{ClientCodec}
use inter_process_communicat.Client.Tokens.{insensitive_equals, is_nonblock_token, is_block_token}
use inter_process_communicat.Client.Scan.{take_line, fgets, scan_word}
use inter_process_communicat.Client.Commands.{
  scan_get, scan_mode, scan_ints, scan_texts, is_math_word, read_line,
}
use inter_process_communicat.Client.Session.{
  Session, Prompt, Turn, goes_on, leaves, say, Mode, mode_of, on_str,
}
use inter_process_communicat.Client.Session.Laws.{
  Follows, OnTurn, on_get-Follows, on_math-Follows, on_str-Follows,
}
use inter_process_communicat.Client.Loop.{on_op, on_mode, on_command, on_line}

-- The same of the turn that a round is defined to end in.
unfoldable pub OnDefined : (Session → Type 0) → Outcome Turn → Type 0
OnDefined P undefined = Unit
OnDefined P (defined turn) = OnTurn P turn

pub OnDefined-turn :
    (P : Session → Type 0) (m : Outcome Turn) (turn : Turn)
    → m ≡ defined turn
    → OnDefined P m
    → OnTurn P turn
unfolding OnDefined
OnDefined-turn P m turn e h = subst (OnDefined P) e h

bound-Follows {ℓ} :
    {A : Type ℓ} (s : Session) (m : Outcome A) (f : A → Turn)
    → ((a : A) → OnTurn (Follows s) (f a))
    → OnDefined (Follows s) (m >>= λ a. defined (f a))
unfolding OnDefined
bound-Follows s undefined f h = tt
bound-Follows s (defined a) f h = h a

then-Follows {ℓ} :
    {A : Type ℓ} (s : Session) (m : Outcome A) (f : A → Outcome Turn)
    → ((a : A) → OnDefined (Follows s) (f a))
    → OnDefined (Follows s) (m >>= f)
unfolding OnDefined
then-Follows s undefined f h = tt
then-Follows s (defined a) f h = h a

either-Follows :
    (s : Session) (b : Bool) (x y : Outcome Turn)
    → OnDefined (Follows s) x
    → OnDefined (Follows s) y
    → OnDefined (Follows s) (if b then x else y)
either-Follows s true x y hx hy = hx
either-Follows s false x y hx hy = hy

said_Follows : (s : Session) (text : Bytes) → OnDefined (Follows s) (defined (goes_on (say text s)))
unfolding OnDefined
said_Follows s text = (refl, (λ keyed. keyed))

kept_Follows : (s : Session) → OnDefined (Follows s) (defined (goes_on s))
unfolding OnDefined
kept_Follows s = (refl, (λ keyed. keyed))

defined-Follows :
    (s : Session) (turn : Turn) → OnTurn (Follows s) turn → OnDefined (Follows s) (defined turn)
unfolding OnDefined
defined-Follows s turn h = h

left_Follows : (s : Session) → OnDefined (Follows s) (defined (leaves s))
unfolding OnDefined
left_Follows s = (refl, (λ keyed. keyed))

module _ (codec : ClientCodec) where
  on_op-Follows :
      (mode : Mode) (line : Bytes) (p : Prompt) (s : Session)
      → OnDefined (Follows s) (on_op codec mode line p s)
  unfolding on_op
  on_op-Follows mode line p s =
      either-Follows s (is_math_word mode.op) _ _
        (bound-Follows s (scan_ints line) _ (λ o. on_math-Follows codec mode o p s))
        (either-Follows s (insensitive_equals mode.op (codes "concat")) _ _ (text_Follows _ _ _) (
          either-Follows s (insensitive_equals mode.op (codes "find")) _ _ (text_Follows _ _ _)
            (said_Follows s _)))
    where
      text_Follows :
          (op : StrOp) (usage failed : Bytes)
          → OnDefined
              (Follows s)
              (scan_texts line >>= λ o. defined (on_str codec op usage failed mode o p s))
      text_Follows op usage failed =
          bound-Follows s (scan_texts line) _ (λ o. on_str-Follows codec op usage failed mode o p s)

  on_mode-Follows :
      (words : Option (Bytes × Bytes)) (line : Bytes) (p : Prompt) (s : Session)
      → OnDefined (Follows s) (on_mode codec words line p s)
  unfolding on_mode
  on_mode-Follows none line p s = said_Follows s _
  on_mode-Follows (some (word, op)) line p s =
      either-Follows s (not (is_nonblock_token word) && not (is_block_token word)) _ _
        (said_Follows s _) (on_op-Follows (mode_of word op) line p s)

  on_command-Follows :
      (word : Option (Bytes × Bytes)) (line : Bytes) (p : Prompt) (s : Session)
      → OnDefined (Follows s) (on_command codec word line p s)
  unfolding on_command
  on_command-Follows none line p s = said_Follows s _
  on_command-Follows (some (word, rest)) line p s =
      either-Follows s (insensitive_equals word (codes "get")) _ _
        (bound-Follows s (scan_get line) _ (λ g. on_get-Follows codec g p s))
        (either-Follows s (insensitive_equals word (codes "list")) _ _ (said_Follows s _)
          (then-Follows s (scan_mode line) _ (λ words. on_mode-Follows words line p s)))

  -- A line is not read again, and keeps the tickets under their numbers.
  pub on_line-Follows :
      (line : Bytes) (p : Prompt) (s : Session) → OnDefined (Follows s) (on_line codec line p s)
  unfolding on_line
  on_line-Follows [] p s = kept_Follows s
  on_line-Follows (c ∷ t) p s =
      either-Follows s
        (insensitive_equals (c ∷ t) (codes "quit") || insensitive_equals (c ∷ t) (codes "exit")) _ _
        (left_Follows s)
        (either-Follows s (insensitive_equals (c ∷ t) (codes "help")) _ _ (said_Follows s _) (
          then-Follows s (scan_word 32 31 (c ∷ t)) _ (λ word. on_command-Follows word (c ∷ t) p s)))

take_line-left : (room : ℕ) (s : Bytes) → length (take_line room s).1 ≤ length s
unfolding take_line
take_line-left zero s = omega arith
take_line-left (suc room) [] = omega arith
take_line-left (suc room) (c ∷ s) = ground (arith, take_line-left room s)

take_line-shorter :
    (room c : ℕ) (s : Bytes) → length (take_line (suc room) (c ∷ s)).1 < length (c ∷ s)
unfolding take_line
take_line-shorter room c s = ground (arith, take_line-left room s)

pub read_line-left :
    (s line rest : Bytes) → read_line s ≡ some (line, rest) → length rest < length s
unfolding read_line fgets
read_line-left [] line rest e = absurd (cc)
read_line-left (c ∷ s) line rest e =
    let same : (take_line 511 (c ∷ s)).1 ≡ rest = cc in
    subst (λ u. length u < length (c ∷ s)) same (take_line-shorter 510 c s)
