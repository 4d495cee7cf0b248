-- ===== src/Runner/Tickets.antt =====
-- A ticket and the request that it was issued for.
use mathlib.Core.Path.{subst₂}
use inter_process_communicat.Base.{
  ℕ, ◌≡◌, refl, sym, ap, ◌∙◌, subst, ◌≢◌, true, some, arith, defined, defined-injective,
  get_elem?-append_last, length,
}
use inter_process_communicat.Base.Eq.{nat_eq}
use inter_process_communicat.Base.Dict.{find, find-assign_self}
use inter_process_communicat.Protocol.{
  ec_success, SubmitRequest, SubmitResponse, SubmitMode, blocking, nonblocking, mode_unnamed,
  GetRequest, GetResponse, st_not_finished, new_get_response,
}
use inter_process_communicat.Runner.{Runner, new_runner, new_job, Reply}
use inter_process_communicat.Runner.Workers.{stop}
use inter_process_communicat.Runner.Submit.{ticket_id, has_payload, enqueue, run, run_mode}
use inter_process_communicat.Runner.Get.{Waiting, get, req_id}
use inter_process_communicat.Runner.Effect.{turn-Effect}
use inter_process_communicat.Runner.Cases.{Anytime}
use inter_process_communicat.Runner.Results.{
  IsFaithful, IsFaithful-Keeps, Tracks, Effect-Tracks, enqueue-Tracks, take_out-Tracks,
}
use inter_process_communicat.Runner.History.{
  works, submits, fetches, starts, stops, Reach, here, next, KeepsAll, Reach-keeps,
}
use inter_process_communicat.Runner.Answer.{Answer, get-Answer}

IsFaithful-KeepsAll : KeepsAll IsFaithful Anytime
unfolding stop
IsFaithful-KeepsAll = record {
  keeps = IsFaithful-Keeps;
  on_init = λ r n created v. v;
  on_stop = λ r v. v;
  on_join = λ r all v. v;
}

new_runner-IsFaithful : (seq : ℕ) → IsFaithful (new_runner seq)
unfolding new_runner find
new_runner-IsFaithful seq id a e = cc

-- In every state that a new runner reaches by requests, turns of its workers, starts and stops, a
-- ticket leads to a job of its number, and a finished job holds what its request evaluates to.
pub Reach-IsFaithful : (seq : ℕ) {r : Runner} → Reach Anytime (new_runner seq) r → IsFaithful r
Reach-IsFaithful seq reach =
    Reach-keeps IsFaithful Anytime IsFaithful-KeepsAll reach (new_runner-IsFaithful seq)

-- No request gets the ticket `t`.
abbrev pub NotReissued : ℕ → Runner → ℕ → Type 0
NotReissued t r now = ticket_id now r.seq ≢ t

Tracks-KeepsAll : (t : ℕ) (req : SubmitRequest) → KeepsAll (Tracks t req) (NotReissued t)
unfolding stop
Tracks-KeepsAll t req = record {
  keeps = record {
    on_turn = λ r turn r' h. Effect-Tracks t req (turn-Effect r turn h);
    on_enqueue = λ r now pick later ok v. enqueue-Tracks t req r now pick later ok v;
    on_take_out = λ r id a job old f e d v. take_out-Tracks t req r id a job old e v;
  };
  on_init = λ r n created v. v;
  on_stop = λ r v. v;
  on_join = λ r all v. v;
}

Reach-any :
    {Allowed : Runner → ℕ → Type 0} {r r' : Runner} → Reach Allowed r r' → Reach Anytime r r'
Reach-any here = here
Reach-any (next before (works t h) ok) = next (Reach-any before) (works t h) tt
Reach-any (next before (submits now pick req response out h e) ok) =
    next (Reach-any before) (submits now pick req response out h e) tt
Reach-any (next before (fetches env req response out h e) ok) =
    next (Reach-any before) (fetches env req response out h e) tt
Reach-any (next before (starts n created e) ok) = next (Reach-any before) (starts n created e) tt
Reach-any (next before (stops schedule code h) ok) =
    next (Reach-any before) (stops schedule code h) tt

Reach-append : {r s t : Runner} → Reach Anytime r s → Reach Anytime s t → Reach Anytime r t
Reach-append first here = first
Reach-append first (next before step ok) = next (Reach-append first before) step ok

enqueue-Tracks_self :
    (r : Runner) (now pick : ℕ) (req : SubmitRequest)
    → Tracks (ticket_id now r.seq) req (enqueue r now pick req).1
unfolding enqueue new_job
enqueue-Tracks_self r now pick req a e =
    let t = ticket_id now r.seq in
    let found = sym (find-assign_self t (length r.heap) r.jobs) ∙ e in
    (new_job t req, ground (arith, found, get_elem?-append_last r.heap (new_job t req) a), refl)

-- What a non-blocking request is told, and the runner behind it.
pub record Issued (r : Runner) (now pick : ℕ) (req : SubmitRequest) (out : Reply SubmitResponse)
    : Type 0 where
  pub pending : out.response.status ≡ st_not_finished
  pub told : out.response.ticket ≡ some (ticket_id now r.seq)
  pub after : out.runner ≡ (enqueue r now pick req).1

enqueue-id :
    (r : Runner) (now pick : ℕ) (req : SubmitRequest)
    → (enqueue r now pick req).0 ≡ ticket_id now r.seq
unfolding enqueue
enqueue-id r now pick req = refl

run_mode-Issued :
    (mode : SubmitMode) (r : Runner) (now pick : ℕ) (req : SubmitRequest)
    (response : SubmitResponse)
    → mode ≡ nonblocking
    → has_payload req.payload ≡ true
    → (out : Reply SubmitResponse) × (run_mode mode r now pick req response ≡ defined out)
      × Issued r now pick req out
unfolding run_mode
run_mode-Issued blocking r now pick req response m p = absurd (cc)
run_mode-Issued nonblocking r now pick req response m p = (
  issue,
  rw p refl,
  record { pending = refl; told = ap some (enqueue-id r now pick req); after = refl },
)
  where
    issue : Reply SubmitResponse
    issue = record {
      code = ec_success;
      runner = (enqueue r now pick req).1;
      response = record response {
        status = st_not_finished;
        ticket = some (enqueue r now pick req).0;
      };
    }
run_mode-Issued (mode_unnamed n) r now pick req response m p = absurd (cc)

-- A non-blocking request with an operation in it returns in every state of the runner. It is told
-- NOT_FINISHED and its ticket, and leaves the runner as `enqueue` does.
pub run-Issued :
    (r : Runner) (now pick : ℕ) (req : SubmitRequest) (response : SubmitResponse)
    → req.mode ≡ nonblocking
    → has_payload req.payload ≡ true
    → (out : Reply SubmitResponse) × (run r now pick req response ≡ defined out)
      × Issued r now pick req out
unfolding run
run-Issued r now pick req response m p = run_mode-Issued req.mode r now pick req response m p

-- The job of an issued ticket, for as long as no later request gets the same number.
module _ (seq : ℕ) (r r' : Runner) (now pick : ℕ) (req : SubmitRequest) (response : SubmitResponse)
    {out : Reply SubmitResponse} (before : Reach Anytime (new_runner seq) r)
    (m : req.mode ≡ nonblocking) (p : has_payload req.payload ≡ true)
    (h : run r now pick req response ≡ defined out)
    (after : Reach (NotReissued (req_id out.response.ticket)) out.runner r') where
  issued : Issued r now pick req out
  issued =
      let (out₀, h₀, i) = run-Issued r now pick req response m p in
      subst (Issued r now pick req) (defined-injective (sym h₀ ∙ h)) i

  pub issued-Reach : Reach Anytime (new_runner seq) r'
  issued-Reach =
      Reach-append (next before (submits now pick req response out h refl) tt) (Reach-any after)

  pub issued-Tracks : Tracks (req_id out.response.ticket) req r'
  issued-Tracks =
      let t = req_id out.response.ticket in
      Reach-keeps (Tracks t req) (NotReissued t) (Tracks-KeepsAll t req) after (
        subst₂ (λ o q. Tracks (req_id o) req q) (sym issued.told) (sym issued.after)
          (enqueue-Tracks_self r now pick req))

-- A `get` for a ticket, in any state that the server reaches after the non-blocking request that it was
-- issued for, as long as no later request got the same number: if it returns, then the answer is that
-- the ticket or the wait mode is unknown, or NOT_FINISHED with the ticket kept, or the status and result
-- that the request evaluates to, after which the ticket is unknown.
pub ticket-Answer :
    (seq : ℕ) (r r' : Runner) (now pick : ℕ) (req : SubmitRequest) (response : SubmitResponse)
    (env : Waiting) (g : GetRequest) {out : Reply SubmitResponse} {out' : Reply GetResponse}
    → Reach Anytime (new_runner seq) r
    → req.mode ≡ nonblocking
    → has_payload req.payload ≡ true
    → run r now pick req response ≡ defined out
    → Reach (NotReissued (req_id out.response.ticket)) out.runner r'
    → g.ticket ≡ out.response.ticket
    → get r' env g new_get_response ≡ defined (some out')
    → Answer (req_id out.response.ticket) req new_get_response out'
ticket-Answer seq r r' now pick req response env g {out} {out'} before m p h after asks h' =
    let faithful =
      Reach-IsFaithful seq (issued-Reach seq r r' now pick req response before m p h after) in
    let tracked = issued-Tracks seq r r' now pick req response before m p h after in
    subst (λ t. Answer (req_id t) req new_get_response out') asks
      (get-Answer req new_get_response r' env g faithful
        (subst (λ t. Tracks (req_id t) req r') (sym asks) tracked) h')
