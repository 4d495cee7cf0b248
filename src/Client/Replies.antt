-- ===== src/Client/Replies.antt =====
-- Which message a call takes for its answer.
use inter_process_communicat.Base.{◌⊎◌, Option, arith, ◌≡◌, refl, List, [], ◌∷◌, ◌++◌, some, none}
use inter_process_communicat.Protocol.{
  Bytes, SubmitRequest, SubmitResponse, submit_resp, blocking, nonblocking, st_error_internal,
  ec_success, ec_failure,
}
use inter_process_communicat.Server.{SendResult, sent, not_sent, send_throws}
use inter_process_communicat.Client.{ClientCodec, Socket, Exchange, returned}
use inter_process_communicat.Client.Transport.{
  send_frame, last_frame, send_envelope, read_frame, take_message, receive, recv_envelope,
}
use inter_process_communicat.Client.Submit.{
  with_mode, from_submit, received_submit, after_blocking, submit_blocking, after_nonblocking,
  submit_nonblocking,
}

unsent :
    (o : Option Bytes) (how : SendResult) (s : Socket)
    → (o ≡ none) ⊎ (how ≡ not_sent)
    → send_frame o how s ≡ returned ec_failure s tt
unfolding send_frame
unsent none how s e = refl
unsent (some b) not_sent s e = refl
unsent (some b) sent s e = absurd (ground arith)
unsent (some b) (send_throws x) s e = absurd (ground arith)

module _ (codec : ClientCodec) where
  -- A blocking request that is sent takes the oldest message that was not received yet for its answer,
  -- whatever the request is, and whatever comes in meanwhile: so also the late answer to a request that
  -- was given up before.
  pub submit_blocking-oldest :
      (req : SubmitRequest) (out : SubmitResponse) (x : Exchange) (s : Socket) (sending : Bytes)
      (frames : List Bytes) (later : List (List Bytes)) (frame : Bytes) (resp : SubmitResponse)
      → codec.serialize_request (with_mode req blocking) ≡ some sending
      → x.sending ≡ sent
      → x.interrupted ≡ none
      → s.inbox ≡ frames ∷ later
      → last_frame frames ≡ some frame
      → codec.parse_response frame ≡ some (submit_resp resp)
      → submit_blocking codec req out x s
        ≡ returned ec_success
            (record { inbox = later ++ x.arrivals; outbox = s.outbox ++ (sending ∷ []) })
            resp
  unfolding submit_blocking after_blocking send_envelope send_frame recv_envelope receive
      take_message read_frame received_submit from_submit
  submit_blocking-oldest req out x s sending frames later frame resp e one calm box top p =
      rw (e, one, calm, box, top, p) refl

  -- A blocking request to which nothing comes in before the timeout, and nothing did before, returns
  -- EC_FAILURE with INTERNAL; the request stays sent.
  pub submit_blocking-timeout :
      (req : SubmitRequest) (out : SubmitResponse) (x : Exchange) (s : Socket) (sending : Bytes)
      → codec.serialize_request (with_mode req blocking) ≡ some sending
      → x.sending ≡ sent
      → x.interrupted ≡ none
      → s.inbox ≡ []
      → x.arrivals ≡ []
      → submit_blocking codec req out x s
        ≡ returned ec_failure
            (record { inbox = []; outbox = s.outbox ++ (sending ∷ []) })
            (record out { status = st_error_internal })
  unfolding submit_blocking after_blocking send_envelope send_frame recv_envelope receive
      take_message received_submit
  submit_blocking-timeout req out x s sending e one calm box quiet =
      rw (e, one, calm, box, quiet) refl

  -- A non-blocking request that does not leave, since it cannot be serialized or its send is not
  -- accepted, waits for an answer all the same, and takes the oldest message for it.
  pub submit_nonblocking-not_sent :
      (req : SubmitRequest) (out : SubmitResponse) (x : Exchange) (s : Socket) (frames : List Bytes)
      (later : List (List Bytes)) (frame : Bytes) (resp : SubmitResponse)
      → (codec.serialize_request (with_mode req nonblocking) ≡ none) ⊎ (x.sending ≡ not_sent)
      → x.interrupted ≡ none
      → s.inbox ++ x.arrivals ≡ frames ∷ later
      → last_frame frames ≡ some frame
      → codec.parse_response frame ≡ some (submit_resp resp)
      → submit_nonblocking codec req out x s
        ≡ returned ec_success (record { inbox = later; outbox = s.outbox }) resp
  unfolding submit_nonblocking after_nonblocking send_envelope recv_envelope receive take_message
      read_frame received_submit from_submit
  submit_nonblocking-not_sent req out x s frames later frame resp e calm box top p =
      rw
        (
          unsent (codec.serialize_request (with_mode req nonblocking)) x.sending s e,
          calm,
          box,
          top,
          p,
        )
        refl
