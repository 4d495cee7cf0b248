-- ===== src/Client/Loop/Ends.antt =====
-- The end of the loop, and its tickets.
use inter_process_communicat.Base.{
  ◌<◌, ◌≡◌, refl, ap, sym, subst, ◌∙◌, ◌⊎◌, inl, inr, Bool-cases, Option, none, some, List, [], ◌∷◌,
  length, arith, Outcome, undefined, defined, Outcome-cases, defined-injective, transfer,
  >>=-eq-defined,
}
use inter_process_communicat.Base.Eq.{nat_eq}
use inter_process_communicat.Base.Dict.{find}
use inter_process_communicat.Base.Text.{codes}
use inter_process_communicat.Protocol.{Bytes, ec_success}
use inter_process_communicat.Client.{ClientCodec, Socket}
use inter_process_communicat.Client.Commands.{read_line}
use inter_process_communicat.Client.Session.{
  Session, Prompt, Turn, goes_on, leaves, returns, raises, say,
}
use inter_process_communicat.Client.Session.Laws.{IsKeyed, Follows, OnTurn}
use inter_process_communicat.Client.Loop.{
  on_input, iterate, Ending, exits, uncaught, Ran, leave, proceed, run_loop, run,
}
use inter_process_communicat.Client.Loop.Laws.{OnDefined-turn, on_line-Follows, read_line-left}

turn-IsKeyed :
    (s : Session) (turn : Turn)
    → OnTurn (Follows s) turn
    → IsKeyed s.pending
    → OnTurn (λ t. IsKeyed t.pending) turn
turn-IsKeyed s (goes_on t) h keyed = h.1 keyed
turn-IsKeyed s (leaves t) h keyed = h.1 keyed
turn-IsKeyed s (returns code t) h keyed = h.1 keyed
turn-IsKeyed s (raises e t) h keyed = h.1 keyed

-- The loop ends, unless it meets undefined behaviour.
abbrev pub Ends : Outcome Ran → Type 0
Ends o = (o ≡ undefined) ⊎ ((r : Ran) × (e : Ending) × (o ≡ defined r) × (r.ending ≡ some e))

leave-Ends : (s : Session) → Ends (defined (leave s))
unfolding leave
leave-Ends s = inr (leave s, exits ec_success, refl, refl)

proceed-Ends :
    (rest : Session → Outcome Ran) (turn : Turn)
    → ((t : Session) → turn ≡ goes_on t → Ends (rest t))
    → Ends (proceed rest turn)
unfolding proceed
proceed-Ends rest (goes_on s) h = h s refl
proceed-Ends rest (leaves s) h = leave-Ends s
proceed-Ends rest (returns code s) h = inr (_, exits code, refl, refl)
proceed-Ends rest (raises e s) h = inr (_, uncaught e, refl, refl)

proceed-IsKeyed :
    (rest : Session → Outcome Ran) (turn : Turn) (r : Ran)
    → OnTurn (λ t. IsKeyed t.pending) turn
    → ((t : Session) → IsKeyed t.pending → rest t ≡ defined r → IsKeyed r.session.pending)
    → proceed rest turn ≡ defined r
    → IsKeyed r.session.pending
unfolding proceed leave
proceed-IsKeyed rest (goes_on s) r keyed h e = h s keyed e
proceed-IsKeyed rest (leaves s) r keyed h e = transfer (λ q. IsKeyed q.session.pending) e keyed
proceed-IsKeyed rest (returns code s) r keyed h e =
    transfer (λ q. IsKeyed q.session.pending) e keyed
proceed-IsKeyed rest (raises x s) r keyed h e = transfer (λ q. IsKeyed q.session.pending) e keyed

module _ (codec : ClientCodec) where
  on_input-reads :
      (o : Option (Bytes × Bytes)) (p : Prompt) (s t : Session)
      → read_line s.input ≡ o
      → on_input codec o p s ≡ defined (goes_on t)
      → length t.input < length s.input
  unfolding on_input
  on_input-reads none p s t e h = absurd (cc)
  on_input-reads (some (line, rest)) p s t e h =
      let s' : Session = record s { input = rest } in
      let f = OnDefined-turn (Follows s') _ (goes_on t) h (on_line-Follows codec line p s') in
      subst (λ u. length u < length s.input) (sym f.0) (read_line-left s.input line rest e)

  on_input-IsKeyed :
      (o : Option (Bytes × Bytes)) (p : Prompt) (s : Session) (turn : Turn)
      → IsKeyed s.pending
      → on_input codec o p s ≡ defined turn
      → OnTurn (λ t. IsKeyed t.pending) turn
  unfolding on_input
  on_input-IsKeyed none p s turn keyed h =
      subst (OnTurn (λ t. IsKeyed t.pending)) (defined-injective h) keyed
  on_input-IsKeyed (some (line, rest)) p s turn keyed h =
      let s' : Session = record s { input = rest } in
      turn-IsKeyed s' turn (OnDefined-turn (Follows s') _ turn h (on_line-Follows codec line p s'))
        keyed

  -- A round that goes on has read something.
  iterate-reads :
      (p : Prompt) (s t : Session)
      → iterate codec p s ≡ defined (goes_on t)
      → length t.input < length s.input
  unfolding iterate
  iterate-reads p s t h = on_input-reads (read_line s.input) p (say (codes ">> ") s) t refl h

  iterate-IsKeyed :
      (p : Prompt) (s : Session) (turn : Turn)
      → IsKeyed s.pending
      → iterate codec p s ≡ defined turn
      → OnTurn (λ t. IsKeyed t.pending) turn
  unfolding iterate
  iterate-IsKeyed p s turn keyed h =
      on_input-IsKeyed (read_line s.input) p (say (codes ">> ") s) turn keyed h

  -- The loop of the client ends when there are more prompts than bytes to read: it ends with a code or
  -- with an exception, unless it meets undefined behaviour.
  pub run_loop-Ends :
      (ps : List Prompt) (s : Session) → length s.input < length ps → Ends (run_loop codec ps s)
  unfolding run_loop
  run_loop-Ends [] s h = absurd (omega arith)
  run_loop-Ends (p ∷ ps) s h = elim (Bool-cases p.sig_stop) [
    | inl stop ↦ simp stop (leave-Ends s)
    | inr calm ↦ elim (Outcome-cases (iterate codec p s)) [
      | inl wild ↦ simp (calm, wild) (inl refl)
      | inr (turn, e) ↦
          simp (calm, e)
            (proceed-Ends _ turn (λ t same. run_loop-Ends ps t (later t (e ∙ ap defined same))))
    ]
  ]
    where
      later : (t : Session) → iterate codec p s ≡ defined (goes_on t) → length t.input < length ps
      later t e = omega (arith, iterate-reads p s t e)

  run_loop-IsKeyed :
      (ps : List Prompt) (s : Session) (r : Ran)
      → IsKeyed s.pending
      → run_loop codec ps s ≡ defined r
      → IsKeyed r.session.pending
  unfolding run_loop leave
  run_loop-IsKeyed [] s r keyed e = transfer (λ q. IsKeyed q.session.pending) e keyed
  run_loop-IsKeyed (p ∷ ps) s r keyed e = elim (Bool-cases p.sig_stop) [
    | inl stop ↦ transfer (λ q. IsKeyed q.session.pending) (simp stop at e) keyed
    | inr calm ↦
        let (turn, found, next) = >>=-eq-defined (iterate codec p s) _ (simp calm at e) in
        proceed-IsKeyed _ turn r (iterate-IsKeyed p s turn keyed found)
          (λ t later. run_loop-IsKeyed ps t r later) next
  ]

  -- In the session in which `run` ends, or stands after any number of prompts, each pending ticket is
  -- that of the number under which a `get` finds it, and stands in the map once.
  pub run-IsKeyed :
      (ps : List Prompt) (input : Bytes) (socket : Socket) (r : Ran)
      → run codec ps input socket ≡ defined r
      → IsKeyed r.session.pending
  unfolding run find
  run-IsKeyed ps input socket r e = run_loop-IsKeyed ps _ r (λ k v h. absurd (cc), λ k. refl) e
