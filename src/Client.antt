-- ===== src/Client.antt =====
-- sources/client/application.cpp: the messages between the client and the server.
pub mod Transport
pub mod Submit
pub mod Replies
pub mod Lifecycle
pub mod Tokens
pub mod Scan
pub mod Print
pub mod Commands
pub mod Session
pub mod Loop
pub mod Tests
use inter_process_communicat.Base.{ℕ, Option, none, some, List}
use inter_process_communicat.Base.Int.{ℤ}
use inter_process_communicat.Protocol.{Bytes, FirstHandshake, EnvelopeReq, EnvelopeResp}
use inter_process_communicat.Server.{Exception, SendResult}

-- `mIdentity` and `mExecFunFlags` of `Application`.
pub record Client : Type 0 where
  pub identity : Bytes
  pub exec_fun_flags : ℕ

-- The generated code of protos/ipc.proto: `SerializeToString` and `ParseFromArray`.
pub record ClientCodec : Type 0 where
  pub serialize_handshake : FirstHandshake → Option Bytes
  pub serialize_request : EnvelopeReq → Option Bytes
  pub parse_response : Bytes → Option EnvelopeResp

-- The DEALER socket: the messages that came in and were not received yet, the oldest first, each a list
-- of frames, and the frames that it took to send.
pub record Socket : Type 0 where
  pub inbox : List (List Bytes)
  pub outbox : List Bytes

-- What a call meets: the result of its send, the messages that come in before the timeout of its
-- receive, and the exception of a receive that is interrupted.
pub record Exchange : Type 0 where
  pub sending : SendResult
  pub arrivals : List (List Bytes)
  pub interrupted : Option Exception

-- How a call ends: with a code, the socket, and what it wrote to its argument; or with an exception.
pub data Call (A : Type 0) : Type 0 where
  returned : ℤ → Socket → A → Call A
  thrown : Exception → Socket → Call A
