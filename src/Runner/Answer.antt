-- ===== src/Runner/Answer.antt =====
-- What `get` answers to a ticket.
use inter_process_communicat.Base.{
  ℕ, ◌≡◌, refl, sym, ap, ◌∙◌, subst, inl, inr, true, List, Option, none, some, defined,
  >>=-eq-defined, transfer, transfer_some, get_elem?, Bool-cases, Option-cases,
}
use inter_process_communicat.Base.Eq.{nat_eq}
use inter_process_communicat.Base.Dict.{find, find-erase_self}
use inter_process_communicat.Protocol.{
  Status, st_error_invalid_input, st_not_finished, Result, SubmitRequest, GetRequest, GetResponse,
  GetWaitMode, no_wait, wait_up_to, wait_unnamed,
}
use inter_process_communicat.Operations.{execute}
use inter_process_communicat.Runner.{Job, Runner, Reply}
use inter_process_communicat.Runner.Submit.{mutable_result}
use inter_process_communicat.Runner.Get.{
  Waiting, Wake, wait_loop, take_out, hand_out, after_wait, add_ms_to_timespec, get_mode, get_found,
  get, req_id,
}
use inter_process_communicat.Runner.Effect.{turn-Effect}
use inter_process_communicat.Runner.Cases.{Mapped, Mapped-turns, KeptByTurns, wait_loop-keeps}
use inter_process_communicat.Runner.Results.{IsFaithful, IsFaithful-Keeps, Tracks, Effect-Tracks}

-- An answer to a `get` for ticket `t`, issued for `req`: the ticket, or the wait mode, is unknown; or
-- the job is not finished and can be asked for again; or the result is that of `req`, and the ticket
-- is gone. Only the last sets a result.
pub data Answer (t : ℕ) (req : SubmitRequest) (old : GetResponse) (out : Reply GetResponse)
    : Type 0 where
  unknown : out.response ≡ record old { status = st_error_invalid_input } → Answer t req old out
  unfinished :
      (a : ℕ)
      → out.response ≡ record old { status = st_not_finished }
      → find t out.runner.jobs ≡ some a
      → Answer t req old out
  answered :
      (status : Status) (result : Result)
      → execute req.payload ≡ defined (status, result)
      → out.response ≡ record { status = status; result = some result }
      → find t out.runner.jobs ≡ none
      → Answer t req old out

pub Tracks-turns : (t : ℕ) (req : SubmitRequest) → KeptByTurns (Tracks t req)
Tracks-turns t req r turn r' h = Effect-Tracks t req (turn-Effect r turn h)

pub find-take_out :
    (r : Runner) (t a : ℕ) (job : Job) (old : Result) → find t (take_out r t a job old).jobs ≡ none
unfolding take_out
find-take_out r t a job old = find-erase_self t r.jobs

module _ (t : ℕ) (req : SubmitRequest) (old : GetResponse) where
  hand_out-Answer :
      (r : Runner) (a : ℕ) (job : Job) {out : Reply GetResponse}
      → find t r.jobs ≡ some a
      → job.req ≡ req
      → (job.done ≡ true → execute job.req.payload ≡ defined (job.status, job.result))
      → hand_out r t a old (some job) ≡ defined out
      → Answer t req old out
  unfolding hand_out
  hand_out-Answer r a job f asked right h = elim (Bool-cases job.done) [
    | inl d ↦ transfer (Answer t req old) (simp d at h) (
        answered job.status job.result (rw (← asked) (right d)) refl
          (find-take_out r t a job (mutable_result old.result)))
    | inr d ↦ transfer (Answer t req old) (simp d at h) (unfinished a refl f)
  ]

  after_wait-Answer :
      (r : Runner) (a : ℕ) {out : Reply GetResponse}
      → IsFaithful r
      → Tracks t req r
      → find t r.jobs ≡ some a
      → after_wait t a old (some r) ≡ defined (some out)
      → Answer t req old out
  unfolding after_wait
  after_wait-Answer r a v w f h =
      let (x, e, same_x) = >>=-eq-defined (hand_out r t a old (get_elem? r.heap a)) _ h in
      let (job, at_a, asked) = w a f in
      let (job', at_a', sound) = v t a f in
      let one : job' ≡ job = cc in
      transfer_some (Answer t req old) same_x (
        hand_out-Answer r a job f asked
          (subst (λ (k : Job). k.done ≡ true → execute k.req.payload ≡ defined (k.status, k.result))
            one sound.right)
          (ap (hand_out r t a old) (sym at_a) ∙ e))

  waited-Answer :
      (r : Runner) (a : ℕ) (ks : List Wake) (o : Option Runner) {out : Reply GetResponse}
      → IsFaithful r
      → Tracks t req r
      → find t r.jobs ≡ some a
      → wait_loop r a 0 ks ≡ defined o
      → after_wait t a old o ≡ defined (some out)
      → Answer t req old out
  unfolding after_wait
  waited-Answer r a ks none v w f l h = cc
  waited-Answer r a ks (some q) v w f l h =
      after_wait-Answer q a (wait_loop-keeps IsFaithful IsFaithful-Keeps.on_turn r a 0 ks l v)
        (wait_loop-keeps (Tracks t req) (Tracks-turns t req) r a 0 ks l w)
        (wait_loop-keeps (Mapped t a) (Mapped-turns t a) r a 0 ks l f) h

  get_mode-Answer :
      (mode : GetWaitMode) (r : Runner) (env : Waiting) (ms a : ℕ) {out : Reply GetResponse}
      → IsFaithful r
      → Tracks t req r
      → find t r.jobs ≡ some a
      → get_mode mode r env ms t a old ≡ defined (some out)
      → Answer t req old out
  unfolding get_mode
  get_mode-Answer no_wait r env ms a v w f h = after_wait-Answer r a v w f h
  get_mode-Answer wait_up_to r env ms a v w f h =
      let ks = env.wakes (add_ms_to_timespec env.clock ms) in
      let (o, l, e) = >>=-eq-defined (wait_loop r a 0 ks) _ h in waited-Answer r a ks o v w f l e
  get_mode-Answer (wait_unnamed n) r env ms a v w f h =
      transfer_some (Answer t req old) h (unknown refl)

-- A `get` that returns.
pub get-Answer :
    (req : SubmitRequest) (old : GetResponse) (r : Runner) (env : Waiting) (g : GetRequest)
    {out : Reply GetResponse}
    → IsFaithful r
    → Tracks (req_id g.ticket) req r
    → get r env g old ≡ defined (some out)
    → Answer (req_id g.ticket) req old out
unfolding get get_found
get-Answer req old r env g v w h = elim (Option-cases (find (req_id g.ticket) r.jobs)) [
  | inl e ↦ transfer_some (Answer (req_id g.ticket) req old) (rw (e, get_found) at h) (unknown refl)
  | inr (a, e) ↦
      get_mode-Answer (req_id g.ticket) req old g.wait_mode r env g.timeout_ms a v w e
        (rw (e, get_found) at h)
]
