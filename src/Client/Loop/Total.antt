-- ===== src/Client/Loop/Total.antt =====
-- The loop on an input without a bad number.
use inter_process_communicat.Base.{
  ◌<◌, ◌≡◌, refl, ap, ◌∙◌, subst, ◌⊎◌, inl, inr, Bool-cases, Option, none, some, List, [], ◌∷◌,
  length, Outcome, undefined, defined, Outcome-cases,
}
use inter_process_communicat.Base.Text.{codes}
use inter_process_communicat.Protocol.{Bytes}
use inter_process_communicat.Client.{ClientCodec}
use inter_process_communicat.Client.Commands.{read_line}
use inter_process_communicat.Client.Session.{
  Session, Prompt, Turn, goes_on, leaves, returns, raises, say,
}
use inter_process_communicat.Client.Session.Laws.{Follows}
use inter_process_communicat.Client.Loop.{on_input, iterate, Ending, Ran, proceed, run_loop}
use inter_process_communicat.Client.Loop.Laws.{OnDefined-turn, on_line-Follows}
use inter_process_communicat.Client.Loop.Ends.{run_loop-Ends}
use inter_process_communicat.Client.Loop.Undefined.{BadWait, BadInts, on_line-undefined}

-- A line that the loop reads from an input.
pub data Reads (line : Bytes) : Bytes → Type 0 where
  now : {input : Bytes} (rest : Bytes) → read_line input ≡ some (line, rest) → Reads line input
  later :
      {input : Bytes} (first rest : Bytes)
      → read_line input ≡ some (first, rest)
      → Reads line rest
      → Reads line input

-- A line with a number that no variable of its type can hold.
abbrev pub IsBad : Bytes → Type 0
IsBad line = BadWait line ⊎ BadInts line

abbrev pub BadLine : Bytes → Type 0
BadLine input = (line : Bytes) × Reads line input × IsBad line

proceed-undefined :
    (rest : Session → Outcome Ran) (turn : Turn)
    → proceed rest turn ≡ undefined
    → (t : Session) × (turn ≡ goes_on t) × (rest t ≡ undefined)
unfolding proceed
proceed-undefined rest (goes_on t) e = (t, refl, e)
proceed-undefined rest (leaves s) e = absurd (cc)
proceed-undefined rest (returns code s) e = absurd (cc)
proceed-undefined rest (raises x s) e = absurd (cc)

module _ (codec : ClientCodec) where
  on_input-undefined :
      (o : Option (Bytes × Bytes)) (p : Prompt) (s : Session)
      → read_line s.input ≡ o
      → on_input codec o p s ≡ undefined
      → BadLine s.input
  unfolding on_input
  on_input-undefined none p s e h = absurd (cc)
  on_input-undefined (some (line, rest)) p s e h =
      (line, now rest e, on_line-undefined codec line p (record s { input = rest }) h)

  -- A round that goes on leaves what stands behind its line.
  on_input-rest :
      (o : Option (Bytes × Bytes)) (p : Prompt) (s t : Session)
      → read_line s.input ≡ o
      → on_input codec o p s ≡ defined (goes_on t)
      → BadLine t.input
      → BadLine s.input
  unfolding on_input
  on_input-rest none p s t e h bad = absurd (cc)
  on_input-rest (some (first, rest)) p s t e h (line, reads, wrong) =
      let s' : Session = record s { input = rest } in
      let f = OnDefined-turn (Follows s') _ (goes_on t) h (on_line-Follows codec first p s') in
      (line, later first rest e (subst (Reads line) f.0 reads), wrong)

  iterate-undefined : (p : Prompt) (s : Session) → iterate codec p s ≡ undefined → BadLine s.input
  unfolding iterate
  iterate-undefined p s h = on_input-undefined (read_line s.input) p (say (codes ">> ") s) refl h

  iterate-rest :
      (p : Prompt) (s t : Session)
      → iterate codec p s ≡ defined (goes_on t)
      → BadLine t.input
      → BadLine s.input
  unfolding iterate
  iterate-rest p s t h bad = on_input-rest (read_line s.input) p (say (codes ">> ") s) t refl h bad

  run_loop-undefined :
      (ps : List Prompt) (s : Session) → run_loop codec ps s ≡ undefined → BadLine s.input
  unfolding run_loop
  run_loop-undefined [] s h = absurd (cc)
  run_loop-undefined (p ∷ ps) s h = elim (Bool-cases p.sig_stop) [
    | inl stop ↦ absurd (cc (simp stop at h))
    | inr calm ↦ elim (Outcome-cases (iterate codec p s)) [
      | inl wild ↦ iterate-undefined p s wild
      | inr (turn, e) ↦
          let (t, same, rest) = proceed-undefined _ turn (simp (calm, e) at h) in
          iterate-rest p s t (e ∙ ap defined same) (run_loop-undefined ps t rest)
    ]
  ]

  -- The loop of the client ends, with a code or with an exception, when there are more prompts than bytes
  -- to read and no line that it reads from the input has a number outside the type of its variable: the
  -- milliseconds of a `get`, or an operand of an arithmetic operation.
  pub run_loop-returns :
      (ps : List Prompt) (s : Session)
      → length s.input < length ps
      → ((line : Bytes) → Reads line s.input → ¬ IsBad line)
      → (r : Ran) × (e : Ending) × (run_loop codec ps s ≡ defined r) × (r.ending ≡ some e)
  run_loop-returns ps s short clean = elim (run_loop-Ends codec ps s short) [
    | inl wild ↦
        let (line, reads, bad) = run_loop-undefined ps s wild in absurd (clean line reads bad)
    | inr over ↦ over
  ]
