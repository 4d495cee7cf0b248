-- ===== src/Server/Contact.antt =====
-- Which clients the server knows, and what it lets them do.
use inter_process_communicat.Base.{
  ℕ, ◌<◌, ◌≡◌, refl, ◌⊎◌, inl, inr, false, ◌||◌, if_keeps, List, [], ◌∷◌, Option, none, some, arith,
  defined, if◌then◌else◌, Bool-cases,
}
use inter_process_communicat.Base.Eq.{bytes_beq, bytes_eq}
use inter_process_communicat.Base.Dict.{find, assign, find-assign, find-assign_self}
use inter_process_communicat.Protocol.{Bytes, FirstHandshake, SubmitRequest, submit_req}
use inter_process_communicat.Caps.{verify_exec_caps, client_has_capability_for}
use inter_process_communicat.Caps.Laws.{Granted, client_has_capability_for_iff}
use inter_process_communicat.Server.{Application, Codec, sent, message, Round, more, last}
use inter_process_communicat.Server.Envelope.{bad_submit, handle_envelope}
use inter_process_communicat.Server.Loop.{
  again, Rounded, back, throws, to_uint8, bad_response, send_bad_response, refuse, send_response,
  first_contact, respond, later_message, on_message, on_received, body,
}

module _ (codec : Codec) where
  refuse-app :
      (app thrown : Application) (id : Bytes) (round : Round)
      → (refuse codec app thrown id round).app
        ≡ (if throws round.first_send || throws round.second_send then thrown else app)
  unfolding refuse send_bad_response
  refuse-app app thrown id round = ground arith

  pub refuse-keeps {ℓ} :
      (P : Application → Type ℓ) (app thrown : Application) (id : Bytes) (round : Round)
      → P app
      → P thrown
      → P (refuse codec app thrown id round).app
  refuse-keeps P app thrown id round p q =
      rw (refuse-app app thrown id round)
        (if_keeps P (throws round.first_send || throws round.second_send) thrown app q p)

  -- What a first message may change: nothing but the entry of its sender.
  pub record Contacted (app : Application) (id payload : Bytes) (after : Application) : Type 0 where
    pub same_runner : after.algo_runner ≡ app.algo_runner
    pub same_state : after.initialized ≡ app.initialized
    pub others :
        (j : Bytes)
        → bytes_beq id j ≡ false
        → find j after.client_exec_caps ≡ find j app.client_exec_caps
    pub entry :
        (find id after.client_exec_caps ≡ none)
        ⊎ ((h : FirstHandshake) × (codec.parse_handshake payload ≡ some h)
            × (find id after.client_exec_caps ≡ some (to_uint8 h.exec_functions)))

  contact_kept :
      (app : Application) (id payload : Bytes)
      → find id app.client_exec_caps ≡ none
      → Contacted app id payload app
  contact_kept app id payload e = record {
    same_runner = refl;
    same_state = refl;
    others = λ j ne. refl;
    entry = inl e;
  }

  contact_registered :
      (app : Application) (id payload : Bytes) (h : FirstHandshake)
      → codec.parse_handshake payload ≡ some h
      → let flags = to_uint8 h.exec_functions in
        Contacted app id payload
          (record app { client_exec_caps = assign id flags app.client_exec_caps })
  contact_registered app id payload h e = record {
    same_runner = refl;
    same_state = refl;
    others =
        λ j ne. ground (arith, find-assign id j (to_uint8 h.exec_functions) app.client_exec_caps);
    entry = inr (h, e, find-assign_self id (to_uint8 h.exec_functions) app.client_exec_caps);
  }

  pub first_contact-Contacted :
      (app : Application) (id payload : Bytes) (round : Round)
      → find id app.client_exec_caps ≡ none
      → (o : Option FirstHandshake) → codec.parse_handshake payload ≡ o
      → Contacted app id payload (first_contact codec app id o round).app
  unfolding first_contact
  first_contact-Contacted app id payload round e none p =
      let kept = contact_kept app id payload e in
      refuse-keeps (Contacted app id payload) app app id round kept kept
  first_contact-Contacted app id payload round e (some h) p =
      let known = contact_registered app id payload h p in
      if_keeps (λ (x : Rounded). Contacted app id payload x.app)
        (verify_exec_caps (to_uint8 h.exec_functions)) _ _ known
        (refuse-keeps (Contacted app id payload) _ app id round known
          (contact_kept app id payload e))

  -- The first message of a client executes nothing. It leaves the runner and the entries of other
  -- clients as they are, and registers its sender with the low 8 bits of the flags that a handshake in
  -- it names, or not at all.
  pub unregistered-Contacted :
      (app : Application) (round : Round) (id : Bytes) (frames : List Bytes)
      → round.received ≡ message id frames
      → find id app.client_exec_caps ≡ none
      → (x : Rounded) × (body codec app round ≡ defined (some x))
        × Contacted app id (back id frames) x.app
  unfolding body on_received on_message
  unregistered-Contacted app round id frames got e = (
    first_contact codec app id (codec.parse_handshake (back id frames)) round,
    rw (got, e) refl,
    first_contact-Contacted app id (back id frames) round e _ refl,
  )

  -- A handshake whose flags the server finds invalid is answered by an error, and registers its sender
  -- with these flags all the same.
  pub invalid_handshake-registered :
      (app : Application) (round : Round) (id : Bytes) (frames : List Bytes) (h : FirstHandshake)
      → round.received ≡ message id frames
      → find id app.client_exec_caps ≡ none
      → codec.parse_handshake (back id frames) ≡ some h
      → verify_exec_caps (to_uint8 h.exec_functions) ≡ false
      → round.first_send ≡ sent
      → round.second_send ≡ sent
      → (x : Rounded) × (body codec app round ≡ defined (some x))
        × (x.frames ≡ more id ∷ last (bad_response codec) ∷ [])
        × (find id x.app.client_exec_caps ≡ some (to_uint8 h.exec_functions))
  unfolding body on_received on_message first_contact refuse send_bad_response
  invalid_handshake-registered app round id frames h got e parsed bad one two = (
    record {
      app = record app {
        client_exec_caps = assign id (to_uint8 h.exec_functions) app.client_exec_caps;
      };
      frames = more id ∷ last (bad_response codec) ∷ [];
      then_do = again;
    },
    rw (got, e, parsed, bad, one, two) refl,
    refl,
    find-assign_self id (to_uint8 h.exec_functions) app.client_exec_caps,
  )

  pub respond-app :
      (app : Application) (id : Bytes) (o : Option Bytes) (round : Round)
      → (respond codec app id o round).app ≡ app
  unfolding respond
  respond-app app id none round = refl
  respond-app app id (some b) round = refl

  refused_frames :
      (app : Application) (id : Bytes) (round : Round) (o : Option Bytes) (b : Bytes)
      → o ≡ some b
      → round.first_send ≡ sent
      → round.second_send ≡ sent
      → (respond codec app id o round).frames ≡ more id ∷ last b ∷ []
  unfolding respond send_response
  refused_frames app id round o b e one two = rw (e, one, two) refl

  -- A request of a registered client for an operation whose bit its mask has not, or that the protocol
  -- does not name, is not executed: the state of the server stays as it is, and the client is sent
  -- INVALID_INPUT, if the answer can be serialized and the socket takes it.
  pub not-Granted-refused :
      (app : Application) (round : Round) (id : Bytes) (frames : List Bytes) (caps : ℕ)
      (sreq : SubmitRequest)
      → round.received ≡ message id frames
      → find id app.client_exec_caps ≡ some caps
      → codec.parse_request (back id frames) ≡ some (submit_req sreq)
      → caps < 256
      → ¬ Granted sreq.payload caps
      → (x : Rounded) × (body codec app round ≡ defined (some x))
        × (x.app ≡ app)
        × ((b : Bytes)
            → codec.serialize_response bad_submit ≡ some b
            → round.first_send ≡ sent
            → round.second_send ≡ sent
            → x.frames ≡ more id ∷ last b ∷ [])
  unfolding body on_received on_message later_message handle_envelope
  not-Granted-refused app round id frames caps sreq got e parsed small denied = (
    respond codec app id (codec.serialize_response bad_submit) round,
    rw (got, e, parsed, no_cap) refl,
    respond-app app id (codec.serialize_response bad_submit) round,
    refused_frames app id round (codec.serialize_response bad_submit),
  )
    where
      no_cap : client_has_capability_for sreq.payload caps ≡ false
      no_cap = elim (Bool-cases (client_has_capability_for sreq.payload caps)) [
        | inl yes_cap ↦
            absurd (denied ((client_has_capability_for_iff sreq.payload caps small).0 yes_cap))
        | inr without ↦ without
      ]
