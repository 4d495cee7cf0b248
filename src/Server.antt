-- ===== src/Server.antt =====
-- sources/server/application.h: the state of the server, and what it meets from ZeroMQ, Protocol
-- Buffers, the clocks and its own threads.
pub mod Envelope
pub mod Loop
pub mod Contact
pub mod Registry
pub mod Replies
pub mod Advances
pub mod Refinement
pub mod Lifecycle
pub mod Tests
use inter_process_communicat.Base.{ℕ, Bool, Option, List}
use inter_process_communicat.Base.Dict.{Dict}
use inter_process_communicat.Protocol.{Bytes, FirstHandshake, EnvelopeReq, EnvelopeResp}
use inter_process_communicat.Runner.Workers.{Turn}
use inter_process_communicat.Runner.Get.{Waiting}
use inter_process_communicat.Runner.Handle.{AlgoRunner}

-- `Application`, without its sockets and the address.
pub record Application : Type 0 where
  pub client_exec_caps : Dict Bytes ℕ
  pub algo_runner : AlgoRunner
  pub initialized : Bool

-- The generated code of protos/ipc.proto: `ParseFromString` and `SerializeToString`.
pub record Codec : Type 0 where
  pub parse_handshake : Bytes → Option FirstHandshake
  pub parse_request : Bytes → Option EnvelopeReq
  pub serialize_response : EnvelopeResp → Option Bytes

-- What a request meets: the steady clock, the sleeper that a signal wakes, and the waits of a `get`.
pub record Env : Type 0 where
  pub now : ℕ
  pub pick : ℕ
  pub waiting : Waiting

pub data Exception : Type 0 where
  zmq_error : (errno : ℕ) → Exception
  std_exception unknown_exception : Exception

-- `zmq::send_result_t` of one `send`, or what it throws.
pub data SendResult : Type 0 where
  sent : SendResult
  not_sent : SendResult
  send_throws : Exception → SendResult

-- `zmq::recv_multipart`: the identity frame of the ROUTER and the frames behind it.
pub data Received : Type 0 where
  message : (client_id : Bytes) (frames : List Bytes) → Received
  nothing : Received
  receive_throws : Exception → Received

-- What one round of the loop meets; `others` are the turns of the workers before it.
pub record Round : Type 0 where
  pub sig_stop : Bool
  pub others : List Turn
  pub received : Received
  pub first_send : SendResult
  pub second_send : SendResult
  pub env : Env

-- A frame that the socket took, with ZMQ_SNDMORE or as the last of its message.
pub data Frame : Type 0 where
  more last : Bytes → Frame
