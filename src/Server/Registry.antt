-- ===== src/Server/Registry.antt =====
-- The entries of the clients through a round.
use inter_process_communicat.Base.{
  ℕ, ◌≡◌, refl, ap, ◌∙◌, false, Option, none, some, defined, >>=-eq-defined, transfer_some,
  Bool-cases, inl, inr,
}
use inter_process_communicat.Base.Eq.{bytes_beq, bytes_beq_iff, bytes_eq}
use inter_process_communicat.Base.Dict.{find}
use inter_process_communicat.Protocol.{Bytes, EnvelopeReq, EnvelopeResp}
use inter_process_communicat.Runner.Handle.{Handled}
use inter_process_communicat.Server.{
  Application, Codec, Received, message, nothing, receive_throws, Round,
}
use inter_process_communicat.Server.Envelope.{handle_envelope}
use inter_process_communicat.Server.Loop.{
  Rounded, after_handling, later_message, on_message, on_received, body,
}
use inter_process_communicat.Server.Contact.{first_contact-Contacted, refuse-keeps, respond-app}

module _ (codec : Codec) where
  abbrev SameEntries : Application → Rounded → Type 0
  SameEntries app x = x.app.client_exec_caps ≡ app.client_exec_caps

  after_handling-SameEntries :
      (app : Application) (id : Bytes) (round : Round) (o : Option (Handled EnvelopeResp))
      {x : Rounded}
      → defined (after_handling codec app id round o) ≡ defined (some x)
      → SameEntries app x
  after_handling-SameEntries app id round none h = cc
  after_handling-SameEntries app id round (some y) h = transfer_some (SameEntries app) h (
      ap (λ (a : Application). a.client_exec_caps)
        (respond-app codec (record app { algo_runner = y.handle }) id
          (codec.serialize_response y.response) round))

  later_message-SameEntries :
      (app : Application) (id : Bytes) (caps : ℕ) (o : Option EnvelopeReq) (round : Round)
      {x : Rounded}
      → later_message codec app id caps o round ≡ defined (some x)
      → SameEntries app x
  unfolding later_message
  later_message-SameEntries app id caps none round h = transfer_some (SameEntries app) h (
      refuse-keeps codec (λ (a : Application). a.client_exec_caps ≡ app.client_exec_caps) app app id
        round refl refl)
  later_message-SameEntries app id caps (some req) round h =
      let (o, _, e) = >>=-eq-defined (handle_envelope app.algo_runner req caps round.env) _ h in
      after_handling-SameEntries app id round o e

  abbrev Entry : Bytes → ℕ → Application → Type 0
  Entry j caps app = find j app.client_exec_caps ≡ some caps

  other_client :
      (app : Application) (id j : Bytes) (caps : ℕ)
      → find id app.client_exec_caps ≡ none
      → Entry j caps app
      → bytes_beq id j ≡ false
  other_client app id j caps unknown known = elim (Bool-cases (bytes_beq id j)) [
    | inl equal ↦
        let same : id ≡ j = (bytes_beq_iff id j).0 equal in
        let e = ap (λ k. find k app.client_exec_caps) same in absurd (cc)
    | inr other ↦ other
  ]

  on_message-Entry :
      (app : Application) (id payload j : Bytes) (caps : ℕ) (o : Option ℕ) (round : Round)
      {x : Rounded}
      → find id app.client_exec_caps ≡ o
      → Entry j caps app
      → on_message codec app id payload o round ≡ defined (some x)
      → Entry j caps x.app
  unfolding on_message
  on_message-Entry app id payload j caps none round e known h =
      transfer_some (λ (x : Rounded). Entry j caps x.app) h
        (let c = first_contact-Contacted codec app id payload round e _ refl in
          c.others j (other_client app id j caps e known) ∙ known)
  on_message-Entry app id payload j caps (some own) round e known h =
      ap (find j) (later_message-SameEntries app id own _ round h) ∙ known

  on_received-Entry :
      (app : Application) (got : Received) (j : Bytes) (caps : ℕ) (round : Round) {x : Rounded}
      → Entry j caps app
      → on_received codec app got round ≡ defined (some x)
      → Entry j caps x.app
  unfolding on_received
  on_received-Entry app (message id frames) j caps round known h =
      on_message-Entry app id _ j caps _ round refl known h
  on_received-Entry app nothing j caps round known h =
      transfer_some (λ (x : Rounded). Entry j caps x.app) h known
  on_received-Entry app (receive_throws e) j caps round known h =
      transfer_some (λ (x : Rounded). Entry j caps x.app) h known

  -- A client that is registered with a mask stays so through every round, whatever it or others send: no
  -- message changes the mask.
  pub body-keeps_entry :
      (app : Application) (round : Round) (j : Bytes) (caps : ℕ) {x : Rounded}
      → find j app.client_exec_caps ≡ some caps
      → body codec app round ≡ defined (some x)
      → find j x.app.client_exec_caps ≡ some caps
  unfolding body
  body-keeps_entry app round j caps known h =
      on_received-Entry app round.received j caps round known h
