-- ===== src/Server/Refinement.antt =====
-- The runner of the server through the rounds of its loop.
use inter_process_communicat.Base.{
  ℕ, ◌≡◌, refl, sym, ap, ◌∙◌, subst, not, ◌&&◌, List, [], ◌∷◌, Option, none, some, Outcome, defined,
  >>=-eq-defined, transfer, transfer_some, Bool-cases, if_keeps, inl, inr,
}
use inter_process_communicat.Base.Eq.{bytes_eq}
use inter_process_communicat.Protocol.{Bytes, EnvelopeReq, EnvelopeResp, FirstHandshake}
use inter_process_communicat.Caps.{verify_exec_caps}
use inter_process_communicat.Runner.{Runner, new_runner}
use inter_process_communicat.Runner.Cases.{Anytime}
use inter_process_communicat.Runner.History.{Reach}
use inter_process_communicat.Runner.Results.{IsFaithful}
use inter_process_communicat.Runner.Tickets.{Reach-IsFaithful}
use inter_process_communicat.Runner.Accounting.{IsAccounted}
use inter_process_communicat.Runner.Accounting.Calls.{Reach-IsAccounted}
use inter_process_communicat.Runner.Handle.{AlgoRunner, Handled, work}
use inter_process_communicat.Server.{
  Application, Codec, Received, message, nothing, receive_throws, Round,
}
use inter_process_communicat.Server.Envelope.{handle_envelope}
use inter_process_communicat.Server.Loop.{
  Next, again, leave, return_code, Rounded, to_uint8, first_contact, after_handling, later_message,
  on_message, on_received, body, iterate, Ran, proceed_as, proceed, run_loop, run,
}
use inter_process_communicat.Server.Contact.{refuse-keeps, respond-app}
use inter_process_communicat.Server.Advances.{
  Advances, Reach-trans, Advances-refl, Advances-trans, work-Advances, handle_envelope-Advances,
}

module _ (codec : Codec) where
  abbrev Leads : AlgoRunner → Application → Type 0
  Leads h app = Advances h app.algo_runner

  first_contact-Leads :
      (app : Application) (id : Bytes) (o : Option FirstHandshake) (round : Round)
      → Leads app.algo_runner (first_contact codec app id o round).app
  unfolding first_contact
  first_contact-Leads app id none round =
      let stays = Advances-refl app.algo_runner in
      refuse-keeps codec (Leads app.algo_runner) app app id round stays stays
  first_contact-Leads app id (some h) round =
      let stays = Advances-refl app.algo_runner in
      if_keeps (λ (x : Rounded). Leads app.algo_runner x.app)
        (verify_exec_caps (to_uint8 h.exec_functions)) _ _ stays
        (refuse-keeps codec (Leads app.algo_runner) _ app id round stays stays)

  after_handling-Leads :
      (h : AlgoRunner) (app : Application) (id : Bytes) (round : Round)
      (o : Option (Handled EnvelopeResp)) {x : Rounded}
      → ((y : Handled EnvelopeResp) → o ≡ some y → Advances h y.handle)
      → defined (after_handling codec app id round o) ≡ defined (some x)
      → Leads h x.app
  after_handling-Leads h app id round none k e = cc
  after_handling-Leads h app id round (some y) k e =
      transfer_some (λ (z : Rounded). Leads h z.app) e
        (subst (Leads h)
          (sym (
            respond-app codec (record app { algo_runner = y.handle }) id
              (codec.serialize_response y.response) round))
          (k y refl))

  later_message-Leads :
      (app : Application) (id : Bytes) (caps : ℕ) (o : Option EnvelopeReq) (round : Round)
      {x : Rounded}
      → later_message codec app id caps o round ≡ defined (some x)
      → Leads app.algo_runner x.app
  unfolding later_message
  later_message-Leads app id caps none round w =
      let stays = Advances-refl app.algo_runner in
      transfer_some (λ (z : Rounded). Leads app.algo_runner z.app) w
        (refuse-keeps codec (Leads app.algo_runner) app app id round stays stays)
  later_message-Leads app id caps (some req) round w =
      let (o, ran, fin) = >>=-eq-defined (handle_envelope app.algo_runner req caps round.env) _ w in
      after_handling-Leads app.algo_runner app id round o
        (λ y e. handle_envelope-Advances app.algo_runner req caps round.env (ran ∙ ap defined e))
        fin

  on_message-Leads :
      (app : Application) (id payload : Bytes) (o : Option ℕ) (round : Round) {x : Rounded}
      → on_message codec app id payload o round ≡ defined (some x)
      → Leads app.algo_runner x.app
  unfolding on_message
  on_message-Leads app id payload none round w =
      transfer_some (λ (z : Rounded). Leads app.algo_runner z.app) w
        (first_contact-Leads app id _ round)
  on_message-Leads app id payload (some caps) round w = later_message-Leads app id caps _ round w

  on_received-Leads :
      (app : Application) (got : Received) (round : Round) {x : Rounded}
      → on_received codec app got round ≡ defined (some x)
      → Leads app.algo_runner x.app
  unfolding on_received
  on_received-Leads app (message id frames) round w = on_message-Leads app id _ _ round w
  on_received-Leads app nothing round w =
      transfer_some (λ (z : Rounded). Leads app.algo_runner z.app) w (Advances-refl app.algo_runner)
  on_received-Leads app (receive_throws e) round w =
      transfer_some (λ (z : Rounded). Leads app.algo_runner z.app) w (Advances-refl app.algo_runner)

  iterate-Leads :
      (app : Application) (round : Round) {x : Rounded}
      → iterate codec app round ≡ defined (some x)
      → Leads app.algo_runner x.app
  unfolding iterate body
  iterate-Leads app round {x} w =
      let (h, ran, rest) = >>=-eq-defined (work app.algo_runner round.others) _ w in
      Advances-trans app.algo_runner h x.app.algo_runner
        (work-Advances app.algo_runner round.others ran)
        (on_received-Leads (record app { algo_runner = h }) round.received round rest)

  proceed_as-Leads :
      (h : AlgoRunner) (how : Next) (x : Rounded) (rest : Application → Outcome Ran) {y : Ran}
      → Leads h x.app
      → ((a : Application) (z : Ran) → rest a ≡ defined z → Leads a.algo_runner z.app)
      → proceed_as how x rest ≡ defined y
      → Leads h y.app
  unfolding proceed_as
  proceed_as-Leads h again x rest v later w =
      let (z, ran, fin) = >>=-eq-defined (rest x.app) _ w in
      transfer (λ (z : Ran). Leads h z.app) fin
        (Advances-trans h x.app.algo_runner z.app.algo_runner v (later x.app z ran))
  proceed_as-Leads h leave x rest v later w = transfer (λ (z : Ran). Leads h z.app) w v
  proceed_as-Leads h (return_code c) x rest v later w = transfer (λ (z : Ran). Leads h z.app) w v

  proceed-Leads :
      (app : Application) (o : Option Rounded) (rest : Application → Outcome Ran) {y : Ran}
      → ((x : Rounded) → o ≡ some x → Leads app.algo_runner x.app)
      → ((a : Application) (z : Ran) → rest a ≡ defined z → Leads a.algo_runner z.app)
      → proceed app o rest ≡ defined y
      → Leads app.algo_runner y.app
  unfolding proceed
  proceed-Leads app none rest k later w =
      transfer (λ (z : Ran). Leads app.algo_runner z.app) w (Advances-refl app.algo_runner)
  proceed-Leads app (some x) rest k later w =
      proceed_as-Leads app.algo_runner x.then_do x rest (k x refl) later w

  run_loop-Leads :
      (app : Application) (rounds : List Round) (y : Ran)
      → run_loop codec app rounds ≡ defined y
      → Leads app.algo_runner y.app
  unfolding run_loop
  run_loop-Leads app [] y w =
      transfer (λ (z : Ran). Leads app.algo_runner z.app) w (Advances-refl app.algo_runner)
  run_loop-Leads app (round ∷ rounds) y w =
      elim (Bool-cases (app.initialized && not round.sig_stop)) [
        | inl on ↦
            let (o, ran, fin) = >>=-eq-defined (iterate codec app round) _ (rw on at w) in
            proceed-Leads app o (λ a. run_loop codec a rounds)
              (λ x e. iterate-Leads app round (ran ∙ ap defined e))
              (λ a z e. run_loop-Leads a rounds z e) fin
        | inr off ↦
            transfer (λ (z : Ran). Leads app.algo_runner z.app) (rw off at w)
              (Advances-refl app.algo_runner)
      ]

  -- The loop of the server, from a runner that a new one reaches, whatever its clients send, its sockets
  -- do and its workers do in between: it keeps a runner in which each allocated job stands in one place,
  -- and each ticket leads to a job of its number, which holds what its request evaluates to once it is
  -- finished.
  pub run-keeps_runner :
      (app : Application) (rounds : List Round) (seq : ℕ) (r : Runner) (y : Ran)
      → app.algo_runner.impl ≡ some r
      → Reach Anytime (new_runner seq) r
      → run codec app rounds ≡ defined y
      → (r' : Runner) × (y.app.algo_runner.impl ≡ some r') × IsAccounted r' × IsFaithful r'
  unfolding run
  run-keeps_runner app rounds seq r y e before w = elim (Bool-cases app.initialized) [
    | inl on ↦ known (run_loop-Leads app rounds y (simp on at w))
    | inr off ↦ known (
        transfer (λ (z : Ran). Leads app.algo_runner z.app) (simp off at w)
          (Advances-refl app.algo_runner))
  ]
    where
      known :
          Leads app.algo_runner y.app
          → (r' : Runner) × (y.app.algo_runner.impl ≡ some r') × IsAccounted r' × IsFaithful r'
      known leads =
          let (r', e', reach) = leads r e in
          let whole = Reach-trans before reach in
          (r', e', Reach-IsAccounted seq whole, Reach-IsFaithful seq whole)
