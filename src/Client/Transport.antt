-- ===== src/Client/Transport.antt =====
-- `sendFirstHandshake`, `sendEnvelope` and `recvEnvelope`.
use inter_process_communicat.Base.{Option, none, some, List, [], ◌∷◌, ◌++◌}
use inter_process_communicat.Protocol.{
  Bytes, FirstHandshake, EnvelopeReq, EnvelopeResp, resp_not_set, ec_success, ec_failure,
}
use inter_process_communicat.Server.{Exception, SendResult, sent, not_sent, send_throws}
use inter_process_communicat.Client.{Client, ClientCodec, Socket, Exchange, Call, returned, thrown}

-- The one frame of a message, if it could be serialized.
unfoldable pub send_frame : Option Bytes → SendResult → Socket → Call Unit
send_frame none how s = returned ec_failure s tt
send_frame (some buf) sent s = returned ec_success (record s { outbox = s.outbox ++ (buf ∷ []) }) tt
send_frame (some buf) not_sent s = returned ec_failure s tt
send_frame (some buf) (send_throws e) s = thrown e s

-- `frames.back()`, if there is a frame.
abbrev pub last_frame : List Bytes → Option Bytes
last_frame [] = none
last_frame (f ∷ []) = some f
last_frame (f ∷ g ∷ fs) = last_frame (g ∷ fs)

abbrev pub parsed : Socket → Option EnvelopeResp → Call EnvelopeResp
parsed s none = returned ec_failure s resp_not_set
parsed s (some resp) = returned ec_success s resp

module _ (codec : ClientCodec) where
  unfoldable pub send_first_handshake : Client → SendResult → Socket → Call Unit
  send_first_handshake client how s =
      let handshake : FirstHandshake = record {
        client_name = client.identity;
        exec_functions = client.exec_fun_flags;
      } in
      send_frame (codec.serialize_handshake handshake) how s

  unfoldable pub send_envelope : EnvelopeReq → SendResult → Socket → Call Unit
  send_envelope env how s = send_frame (codec.serialize_request env) how s

  unfoldable pub read_frame : Socket → Option Bytes → Call EnvelopeResp
  read_frame s none = returned ec_failure s resp_not_set
  read_frame s (some frame) = parsed s (codec.parse_response frame)

  -- The oldest message, if there is one by the timeout.
  unfoldable pub take_message : List (List Bytes) → Socket → Call EnvelopeResp
  take_message [] s = returned ec_failure (record s { inbox = [] }) resp_not_set
  take_message (frames ∷ later) s = read_frame (record s { inbox = later }) (last_frame frames)

  unfoldable pub receive : Option Exception → List (List Bytes) → Socket → Call EnvelopeResp
  receive (some e) arrivals s = thrown e (record s { inbox = s.inbox ++ arrivals })
  receive none arrivals s = take_message (s.inbox ++ arrivals) s

  -- What `recvEnvelope` leaves in its argument when it fails, no caller reads.
  unfoldable pub recv_envelope : Exchange → Socket → Call EnvelopeResp
  recv_envelope x s = receive x.interrupted x.arrivals s
