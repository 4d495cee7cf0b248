-- ===== src/System.antt =====
-- A client (sources/client/application.cpp) together with the server
-- (sources/server/application.cpp).
pub mod Relay
pub mod Blocking
pub mod Handshake
pub mod Nonblocking
pub mod Get
pub mod TwoRounds
pub mod Delivery
pub mod TypedDelivery
pub mod Toy
pub mod ToyTickets
pub mod Typed
pub mod PrintedGet
pub mod TypedGet
pub mod Tests
pub mod GetTests
pub mod DeliveryTests
pub mod TypedDeliveryTests
pub mod TypedTests
pub mod TypedGetTests
use inter_process_communicat.Base.{◌≡◌, some}
use inter_process_communicat.Protocol.{Bytes, FirstHandshake, EnvelopeReq, EnvelopeResp}
use inter_process_communicat.Server.{Codec}
use inter_process_communicat.Client.{ClientCodec}

-- Protocol Buffers: a message that is serialized on one side is parsed as itself on the other.
pub record Agree (ours : ClientCodec) (theirs : Codec) : Type 0 where
  pub handshake :
      (h : FirstHandshake) (b : Bytes)
      → ours.serialize_handshake h ≡ some b
      → theirs.parse_handshake b ≡ some h
  pub request :
      (m : EnvelopeReq) (b : Bytes)
      → ours.serialize_request m ≡ some b
      → theirs.parse_request b ≡ some m
  pub response :
      (m : EnvelopeResp) (b : Bytes)
      → theirs.serialize_response m ≡ some b
      → ours.parse_response b ≡ some m
