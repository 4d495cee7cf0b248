-- ===== src/Runner/Cases.antt =====
-- Predicates of the runner through every operation, by the three ways in which it changes.
use inter_process_communicat.Base.{
  ℕ, ◌≡◌, refl, true, not, ◌&&◌, List, [], ◌∷◌, Option, none, some, defined, >>=-eq-defined,
  transfer, transfer_some, ◌==◌, get_elem?, Bool-cases, Option-cases, inl, inr,
}
use inter_process_communicat.Base.Eq.{nat_eq}
use inter_process_communicat.Base.Dict.{find}
use inter_process_communicat.Protocol.{
  Result, SubmitRequest, SubmitResponse, SubmitMode, blocking, nonblocking, mode_unnamed,
  GetRequest, GetResponse, GetWaitMode, no_wait, wait_up_to, wait_unnamed,
}
use inter_process_communicat.Runner.{Job, Runner, Reply}
use inter_process_communicat.Runner.Workers.{Turn, turn, turns}
use inter_process_communicat.Runner.Submit.{
  enqueue, run_mode, run, run_blocking, mutable_result, has_payload,
}
use inter_process_communicat.Runner.Get.{
  Waiting, Wake, is_done, wait_loop, take_out, hand_out, after_wait, add_ms_to_timespec, get_mode,
  get_found, get, req_id,
}
use inter_process_communicat.Runner.Effect.{turn-jobs}

abbrev pub Anytime : Runner → ℕ → Type 0
Anytime r now = Unit

abbrev pub KeptByTurns : (Runner → Type 0) → Type 0
KeptByTurns P = (r : Runner) (t : Turn) (r' : Runner) → turn r t ≡ defined r' → P r → P r'

module _ (P : Runner → Type 0) (on_turn : KeptByTurns P) where
  pub turns-keeps :
      (r : Runner) (ts : List Turn) {r' : Runner} → turns r ts ≡ defined r' → P r → P r'
  unfolding turns
  turns-keeps r [] h v = transfer P h v
  turns-keeps r (t ∷ ts) h v =
      let (q, first, rest) = >>=-eq-defined (turn r t) (λ q. turns q ts) h in
      turns-keeps q ts rest (on_turn r t q first v)

  pub wait_loop-keeps :
      (r : Runner) (a timeout : ℕ) (ks : List Wake) {r' : Runner}
      → wait_loop r a timeout ks ≡ defined (some r')
      → P r
      → P r'
  unfolding wait_loop
  wait_loop-keeps r a timeout [] h v =
      elim (Bool-cases (not (is_done (get_elem? r.heap a)) && timeout == 0)) [
        | inl b ↦ absurd (cc (rw b at h))
        | inr b ↦ transfer_some P (rw b at h) v
      ]
  wait_loop-keeps r a timeout (k ∷ ks) h v =
      elim (Bool-cases (not (is_done (get_elem? r.heap a)) && timeout == 0)) [
        | inl b ↦
            let (q, first, rest) = >>=-eq-defined (turns r k.others) _ (rw b at h) in
            wait_loop-keeps q a k.code ks rest (turns-keeps r k.others first v)
        | inr b ↦ transfer_some P (rw b at h) v
      ]

-- A predicate that the three changes keep, a new job at a time `now` that is allowed.
pub record Keeps (P : Runner → Type 0) (Allowed : Runner → ℕ → Type 0) : Type 0 where
  pub on_turn : KeptByTurns P
  pub on_enqueue :
      (r : Runner) (now pick : ℕ) (req : SubmitRequest)
      → Allowed r now
      → P r
      → P (enqueue r now pick req).1
  pub on_take_out :
      (r : Runner) (id a : ℕ) (job : Job) (old : Result)
      → find id r.jobs ≡ some a
      → get_elem? r.heap a ≡ some job
      → job.done ≡ true
      → P r
      → P (take_out r id a job old)

abbrev pub Mapped : ℕ → ℕ → Runner → Type 0
Mapped id a r = find id r.jobs ≡ some a

pub Mapped-turns : (id a : ℕ) → KeptByTurns (Mapped id a)
Mapped-turns id a r t r' h e = rw (turn-jobs r t h) e

module _ (P : Runner → Type 0) (Allowed : Runner → ℕ → Type 0) (keeps : Keeps P Allowed) where
  hand_out-keeps :
      (r : Runner) (id a : ℕ) (response : GetResponse) (o : Option Job) {out : Reply GetResponse}
      → get_elem? r.heap a ≡ o
      → find id r.jobs ≡ some a
      → hand_out r id a response o ≡ defined out
      → P r
      → P out.runner
  unfolding hand_out
  hand_out-keeps r id a response none e f h v = cc
  hand_out-keeps r id a response (some job) e f h v = elim (Bool-cases job.done) [
    | inl d ↦
        transfer (λ (x : Reply GetResponse). P x.runner) (simp d at h)
          (keeps.on_take_out r id a job (mutable_result response.result) f e d v)
    | inr d ↦ transfer (λ (x : Reply GetResponse). P x.runner) (simp d at h) v
  ]

  after_wait-keeps :
      (r : Runner) (id a : ℕ) (response : GetResponse) {out : Reply GetResponse}
      → find id r.jobs ≡ some a
      → after_wait id a response (some r) ≡ defined (some out)
      → P r
      → P out.runner
  unfolding after_wait
  after_wait-keeps r id a response f h v =
      let (x, e, same_x) = >>=-eq-defined (hand_out r id a response (get_elem? r.heap a)) _ h in
      transfer_some (λ (x : Reply GetResponse). P x.runner) same_x
        (hand_out-keeps r id a response _ refl f e v)

  waited-keeps :
      (r : Runner) (id a : ℕ) (response : GetResponse) (ks : List Wake) (o : Option Runner)
      {out : Reply GetResponse}
      → find id r.jobs ≡ some a
      → wait_loop r a 0 ks ≡ defined o
      → after_wait id a response o ≡ defined (some out)
      → P r
      → P out.runner
  unfolding after_wait
  waited-keeps r id a response ks none f w h v = cc
  waited-keeps r id a response ks (some q) f w h v =
      after_wait-keeps q id a response
        (wait_loop-keeps (Mapped id a) (Mapped-turns id a) r a 0 ks w f) h
        (wait_loop-keeps P keeps.on_turn r a 0 ks w v)

  get_mode-keeps :
      (mode : GetWaitMode) (r : Runner) (env : Waiting) (ms id a : ℕ) (response : GetResponse)
      {out : Reply GetResponse}
      → find id r.jobs ≡ some a
      → get_mode mode r env ms id a response ≡ defined (some out)
      → P r
      → P out.runner
  unfolding get_mode
  get_mode-keeps no_wait r env ms id a response f h v = after_wait-keeps r id a response f h v
  get_mode-keeps wait_up_to r env ms id a response f h v =
      let ks = env.wakes (add_ms_to_timespec env.clock ms) in
      let (o, w, e) = >>=-eq-defined (wait_loop r a 0 ks) _ h in
      waited-keeps r id a response ks o f w e v
  get_mode-keeps (wait_unnamed n) r env ms id a response f h v =
      transfer_some (λ (x : Reply GetResponse). P x.runner) h v

  -- A `get` that returns.
  pub get-keeps :
      (r : Runner) (env : Waiting) (req : GetRequest) (response : GetResponse)
      {out : Reply GetResponse}
      → get r env req response ≡ defined (some out)
      → P r
      → P out.runner
  unfolding get get_found
  get-keeps r env req response h v = elim (Option-cases (find (req_id req.ticket) r.jobs)) [
    | inl e ↦ transfer_some (λ (x : Reply GetResponse). P x.runner) (rw (e, get_found) at h) v
    | inr (a, e) ↦
        get_mode-keeps req.wait_mode r env req.timeout_ms (req_id req.ticket) a response e
          (rw (e, get_found) at h) v
  ]

  run_mode-keeps :
      (mode : SubmitMode) (r : Runner) (now pick : ℕ) (req : SubmitRequest)
      (response : SubmitResponse) {out : Reply SubmitResponse}
      → run_mode mode r now pick req response ≡ defined out
      → Allowed r now
      → P r
      → P out.runner
  unfolding run_mode
  run_mode-keeps blocking r now pick req response h ok v =
      let (x, _, e) =
        >>=-eq-defined (run_blocking req.payload (mutable_result response.result)) _ h in
      transfer (λ (x : Reply SubmitResponse). P x.runner) e v
  run_mode-keeps nonblocking r now pick req response h ok v =
      elim (Bool-cases (has_payload req.payload)) [
        | inl b ↦
            transfer (λ (x : Reply SubmitResponse). P x.runner) (rw b at h)
              (keeps.on_enqueue r now pick req ok v)
        | inr b ↦ transfer (λ (x : Reply SubmitResponse). P x.runner) (rw b at h) v
      ]
  run_mode-keeps (mode_unnamed n) r now pick req response h ok v =
      transfer (λ (x : Reply SubmitResponse). P x.runner) h v

  pub run-keeps :
      (r : Runner) (now pick : ℕ) (req : SubmitRequest) (response : SubmitResponse)
      {out : Reply SubmitResponse}
      → run r now pick req response ≡ defined out
      → Allowed r now
      → P r
      → P out.runner
  unfolding run
  run-keeps r now pick req response h ok v = run_mode-keeps req.mode r now pick req response h ok v
