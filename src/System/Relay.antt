-- ===== src/System/Relay.antt =====
-- One message of a client that the server answers with one message.
use inter_process_communicat.Base.{◌≡◌, [], ◌∷◌, ◌++◌, some, none}
use inter_process_communicat.Protocol.{Bytes, EnvelopeReq, EnvelopeResp}
use inter_process_communicat.Runner.Handle.{AlgoRunner}
use inter_process_communicat.Server.{Application, Codec, sent, message, Round, more, last}
use inter_process_communicat.Server.Loop.{again, Rounded}
use inter_process_communicat.Client.{ClientCodec, Socket, Exchange}

-- The round of the server that sends `reply` and keeps the handle `h`.
abbrev pub rounded : Application → Bytes → Bytes → AlgoRunner → Rounded
rounded app id reply h = record {
  app = record app { algo_runner = h };
  frames = more id ∷ last reply ∷ [];
  then_do = again;
}

-- The socket of a client without a message in it, after it sent `sending`.
abbrev pub after_sending : Bytes → Socket → Socket
after_sending sending s = record { inbox = []; outbox = s.outbox ++ (sending ∷ []) }

-- The network carries the request `m` of client `id` to the server as `sending`, and `answer` back as
-- `reply` before the timeout.
pub record IsRelayed (ours : ClientCodec) (theirs : Codec) (id : Bytes) (m : EnvelopeReq)
    (answer : EnvelopeResp) (sending reply : Bytes) (round : Round) (x : Exchange) : Type 0 where
  pub encoded : ours.serialize_request m ≡ some sending
  pub answered : theirs.serialize_response answer ≡ some reply
  pub arrives : round.received ≡ message id (sending ∷ [])
  pub first : round.first_send ≡ sent
  pub second : round.second_send ≡ sent
  pub goes : x.sending ≡ sent
  pub calm : x.interrupted ≡ none
  pub comes : x.arrivals ≡ (reply ∷ []) ∷ []
