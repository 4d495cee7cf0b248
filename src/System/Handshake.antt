-- ===== src/System/Handshake.antt =====
-- The handshake from `clientInitialize` to the server.
use inter_process_communicat.Base.{ℕ, ◌≡◌, refl, ◌<◌, arith, true, [], ◌∷◌, some, none, defined}
use inter_process_communicat.Base.Eq.{bytes_eq}
use inter_process_communicat.Base.Dict.{find, assign, find-assign_self}
use inter_process_communicat.Protocol.{Bytes, FirstHandshake, ec_success}
use inter_process_communicat.Caps.{verify_exec_caps}
use inter_process_communicat.Errors.{handle_regular_error}
use inter_process_communicat.Server.{Application, Codec, sent, message, Round}
use inter_process_communicat.Server.Loop.{
  again, Rounded, to_uint8, first_contact, on_message, on_received, body,
}
use inter_process_communicat.Client.{ClientCodec}
use inter_process_communicat.Client.Transport.{send_frame, send_first_handshake}
use inter_process_communicat.Client.Lifecycle.{
  ClientProcess, new_connection, create_if_none, create, caught, began, connect_and_greet, init,
  init_created, client_initialize,
}
use inter_process_communicat.System.{Agree}

-- The handshake of a client.
abbrev pub greeting : Bytes → ℕ → FirstHandshake
greeting identity flags = record { client_name = identity; exec_functions = flags }

to_uint8-small : (n : ℕ) → n < 256 → to_uint8 n ≡ n
to_uint8-small n h = omega arith

module _ (ours : ClientCodec) (theirs : Codec) (agree : Agree ours theirs) where
  -- The first `clientInitialize` of a process, with a mask that `verifyExecCaps` accepts, that connects
  -- and whose send is accepted, returns EC_SUCCESS and has sent one frame; and a server that does not
  -- know the client registers it for this frame with exactly this mask, and answers nothing.
  pub handshake-Registered :
      (p : ClientProcess) (identity : Bytes) (flags : ℕ) (greet : Bytes) (app : Application)
      (round : Round)
      → p.instance_count ≡ 0
      → p.app_ptr ≡ none
      → verify_exec_caps flags ≡ true
      → flags < 256
      → ours.serialize_handshake (greeting identity flags) ≡ some greet
      → round.received ≡ message identity (greet ∷ [])
      → find identity app.client_exec_caps ≡ none
      → (client_initialize ours p identity flags none sent
          ≡ defined (
              began ec_success (record {
                instance_count = 1;
                app_ptr = some (record (new_connection identity flags) {
                  socket = record { inbox = []; outbox = greet ∷ [] };
                });
                sig_stop = p.sig_stop;
              })))
        × ((x : Rounded) × (body theirs app round ≡ defined (some x))
            × (x.frames ≡ [])
            × (x.then_do ≡ again)
            × (find identity x.app.client_exec_caps ≡ some flags)
            × (x.app.algo_runner ≡ app.algo_runner))
  unfolding client_initialize create create_if_none new_connection init_created init caught
      connect_and_greet send_first_handshake send_frame handle_regular_error body on_received
      on_message first_contact
  handshake-Registered p identity flags greet app round fresh absent valid small encoded got
        unknown =
      (
        rw (valid, fresh, absent, encoded) refl,
        (
          record {
            app = record app { client_exec_caps = assign identity flags app.client_exec_caps };
            frames = [];
            then_do = again;
          },
          rw (got, unknown, understood, to_uint8-small flags small, valid) refl,
          refl,
          refl,
          find-assign_self identity flags app.client_exec_caps,
          refl,
        ),
      )
    where
      understood : theirs.parse_handshake greet ≡ some (greeting identity flags)
      understood = agree.handshake (greeting identity flags) greet encoded
