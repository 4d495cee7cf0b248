-- ===== src/Runner/Distinct.antt =====
-- The tickets that `run` of `AlgoRunnerIpml` issues.
use inter_process_communicat.Base.{
  ℕ, ◌+◌, ◌%◌, ◌^◌, ◌≤◌, ◌<◌, ◌≡◌, ◌≢◌, refl, sym, ap, ◌∙◌, subst, ◌⊎◌, inl, inr, true, Option,
  none, some, arith, defined, defined-injective, >>=-eq-defined, transfer, get_elem?, Option-cases,
  if_keeps, List, [], ◌∷◌,
}
use inter_process_communicat.Base.Eq.{nat_eq}
use inter_process_communicat.Protocol.{SubmitRequest, SubmitResponse, nonblocking}
use inter_process_communicat.Operations.{execute}
use inter_process_communicat.Runner.{
  Job, Worker, at_loop, testing, before_wait, asleep, computing, exited, Runner, Reply,
}
use inter_process_communicat.Runner.Workers.{
  queue_locked, take_job, finish_job, step_worker, step_if_any, wake_up, Turn, go, spurious, turn,
  stop,
}
use inter_process_communicat.Runner.Get.{take_out}
use inter_process_communicat.Runner.Submit.{ticket_id, has_payload, enqueue, run}
use inter_process_communicat.Runner.Cases.{Keeps, Anytime, run-keeps}
use inter_process_communicat.Runner.History.{
  works, submits, fetches, starts, stops, Step, Permits, Reach, here, next, KeepsAll, Step-keeps,
}
use inter_process_communicat.Runner.Tickets.{Issued, run-Issued}
use inter_process_communicat.Runner.Ids.{ticket_id-distinct}

-- How often `run` is called in a history.
unfoldable pub calls : {r r' : Runner} → Reach Anytime r r' → ℕ
calls here = 0
calls (next before (submits now pick req response out h e) ok) = calls before + 1
calls (next before (works t h) ok) = calls before
calls (next before (fetches env req response out h e) ok) = calls before
calls (next before (starts n created e) ok) = calls before
calls (next before (stops schedule code h) ok) = calls before

abbrev CountIs : ℕ → Runner → Type 0
CountIs n r = r.seq ≡ n

take_job-seq : (r : Runner) (w : ℕ) (q : List ℕ) → (take_job r w q).seq ≡ r.seq
unfolding take_job
take_job-seq r w [] = refl
take_job-seq r w (a ∷ q) = refl

finish_job-seq :
    (r : Runner) (w a : ℕ) (o : Option Job) {r' : Runner}
    → finish_job r w a o ≡ defined r'
    → r'.seq ≡ r.seq
unfolding finish_job
finish_job-seq r w a none h = cc
finish_job-seq r w a (some job) h =
    let (x, _, fin) = >>=-eq-defined (execute job.req.payload) _ h in
    transfer (CountIs r.seq) fin refl

step_worker-seq :
    (r : Runner) (w : ℕ) (s : Worker) {r' : Runner}
    → step_worker r w s ≡ defined r'
    → r'.seq ≡ r.seq
unfolding step_worker
step_worker-seq r w at_loop h = transfer (CountIs r.seq) h refl
step_worker-seq r w testing h =
    transfer (CountIs r.seq) h
      (if_keeps (CountIs r.seq) (queue_locked r.workers) _ _ refl (take_job-seq r w r.queue))
step_worker-seq r w before_wait h = transfer (CountIs r.seq) h refl
step_worker-seq r w asleep h = transfer (CountIs r.seq) h refl
step_worker-seq r w (computing a) h = finish_job-seq r w a (get_elem? r.heap a) h
step_worker-seq r w exited h = transfer (CountIs r.seq) h refl

turn-seq : (r : Runner) (t : Turn) {r' : Runner} → turn r t ≡ defined r' → r'.seq ≡ r.seq
unfolding turn
turn-seq r (go w) h = elim (Option-cases (get_elem? r.workers w)) [
  | inl e ↦ transfer (CountIs r.seq) (rw (e, step_if_any) at h) refl
  | inr (s, e) ↦ step_worker-seq r w s (rw (e, step_if_any) at h)
]
turn-seq r (spurious w) h = elim (Option-cases (get_elem? r.workers w)) [
  | inl e ↦ transfer (CountIs r.seq) (rw (e, wake_up) at h) refl
  | inr (s, e) ↦ transfer (CountIs r.seq) (rw (e, wake_up) at h) refl
]

-- The count changes by an issue only.
CountIs-KeepsAll : (n : ℕ) → KeepsAll (CountIs n) (λ r now. ⊥)
unfolding stop take_out
CountIs-KeepsAll n = record {
  keeps = record {
    on_turn = λ r turn r' h v. turn-seq r turn h ∙ v;
    on_enqueue = λ r now pick req never v. absurd never;
    on_take_out = λ r id a job old f e d v. v;
  };
  on_init = λ r n created v. v;
  on_stop = λ r v. v;
  on_join = λ r all v. v;
}

-- The count of a runner that issued at most one ticket more.
abbrev pub AtMostOne : ℕ → Runner → Type 0
AtMostOne n r = (r.seq ≡ n) ⊎ (r.seq ≡ (n + 1) % 2 ^ 64)

AtMostOne-Keeps : (n : ℕ) → Keeps (AtMostOne n) (λ r now. r.seq ≡ n)
unfolding enqueue take_out
AtMostOne-Keeps n = record {
  on_turn =
      λ r turn r' h v. subst (λ k. (k ≡ n) ⊎ (k ≡ (n + 1) % 2 ^ 64)) (sym (turn-seq r turn h)) v;
  on_enqueue = λ r now pick req same v. inr (ap (λ k. (k + 1) % 2 ^ 64) same);
  on_take_out = λ r id a job old f e d v. v;
}

-- The count `c` after a history: between 0 and `k` steps further than `n`.
abbrev Counted : ℕ → ℕ → ℕ → Type 0
Counted n k c = (j : ℕ) × (j ≤ k) × (c % 2 ^ 64 ≡ (n + j) % 2 ^ 64)

kept_Counted : (n k c c' : ℕ) → c' ≡ c → Counted n k c → Counted n k c'
kept_Counted n k c c' e (j, l, same) = (j, l, ap (λ c. c % 2 ^ 64) e ∙ same)

one_more_Counted :
    (n k c c' : ℕ) → (c' ≡ c) ⊎ (c' ≡ (c + 1) % 2 ^ 64) → Counted n k c → Counted n (k + 1) c'
one_more_Counted n k c c' (inl e) (j, l, same) = (j, omega arith, ap (λ c. c % 2 ^ 64) e ∙ same)
one_more_Counted n k c c' (inr e) (j, l, same) = (j + 1, omega arith, omega (arith, e, same))

quiet-Step : (s q : Runner) (step : Step s q) → Permits (λ r now. ⊥) step → q.seq ≡ s.seq
quiet-Step s q step ok = Step-keeps (CountIs s.seq) _ (CountIs-KeepsAll s.seq) step ok refl

Reach-Counted : {r r' : Runner} (reach : Reach Anytime r r') → Counted r.seq (calls reach) r'.seq
unfolding calls
Reach-Counted here = (0, omega arith, omega arith)
Reach-Counted {r} {r' = q} (next {s} before (submits now pick req response out h e) ok) =
    one_more_Counted r.seq (calls before) s.seq q.seq
      (subst (AtMostOne s.seq) e (
        run-keeps (AtMostOne s.seq) _ (AtMostOne-Keeps s.seq) s now pick req response h refl
          (inl refl)))
      (Reach-Counted before)
Reach-Counted {r} {r' = q} (next {s} before (works t h) ok) =
    kept_Counted r.seq (calls before) s.seq q.seq (quiet-Step s q (works t h) tt)
      (Reach-Counted before)
Reach-Counted {r} {r' = q} (next {s} before (fetches env req response out h e) ok) =
    kept_Counted r.seq (calls before) s.seq q.seq
      (quiet-Step s q (fetches env req response out h e) tt) (Reach-Counted before)
Reach-Counted {r} {r' = q} (next {s} before (starts n created e) ok) =
    kept_Counted r.seq (calls before) s.seq q.seq (quiet-Step s q (starts n created e) tt)
      (Reach-Counted before)
Reach-Counted {r} {r' = q} (next {s} before (stops schedule code h) ok) =
    kept_Counted r.seq (calls before) s.seq q.seq (quiet-Step s q (stops schedule code h) tt)
      (Reach-Counted before)

enqueue-seq :
    (r : Runner) (now pick : ℕ) (req : SubmitRequest)
    → (enqueue r now pick req).1.seq ≡ (r.seq + 1) % 2 ^ 64
unfolding enqueue
enqueue-seq r now pick req = refl

ran_Issued :
    (r : Runner) (now pick : ℕ) (req : SubmitRequest) (response : SubmitResponse)
    {out : Reply SubmitResponse}
    → req.mode ≡ nonblocking
    → has_payload req.payload ≡ true
    → run r now pick req response ≡ defined out
    → Issued r now pick req out
ran_Issued r now pick req response m p h =
    let (out₀, h₀, i) = run-Issued r now pick req response m p in
    subst (Issued r now pick req) (defined-injective (sym h₀ ∙ h)) i

-- A ticket depends on the count by its low 64 bits.
ticket_id-wraps : (ts seq : ℕ) → ticket_id ts seq ≡ ticket_id ts (seq % 2 ^ 64)
unfolding ticket_id
ticket_id-wraps ts seq = let e : seq % 2 ^ 16 ≡ seq % 2 ^ 64 % 2 ^ 16 = omega arith in rw e refl

-- Two non-blocking requests with an operation in them are told different tickets, whatever the clock
-- does, in every history between the two in which fewer than 65535 further requests come in: turns of
-- the workers, `get`s, starts and stops, as many as there are, also where the 64-bit counter wraps.
pub run-tickets_differ :
    (r r' : Runner) (now now' pick pick' : ℕ) (req req' : SubmitRequest)
    (response response' : SubmitResponse) (out out' : Reply SubmitResponse)
    → req.mode ≡ nonblocking
    → has_payload req.payload ≡ true
    → req'.mode ≡ nonblocking
    → has_payload req'.payload ≡ true
    → run r now pick req response ≡ defined out
    → (between : Reach Anytime out.runner r') → calls between < 65535
    → run r' now' pick' req' response' ≡ defined out'
    → out'.response.ticket ≢ out.response.ticket
run-tickets_differ r r' now now' pick pick' req req' response response' out out' m p m' p' h between
      few h' same =
    let one = ran_Issued r now pick req response m p h in
    let two = ran_Issued r' now' pick' req' response' m' p' h' in
    let (j, l, count) = Reach-Counted between in
    let first : out.runner.seq ≡ (r.seq + 1) % 2 ^ 64 =
      ap (λ (q : Runner). q.seq) one.after ∙ enqueue-seq r now pick req in
    let later : r'.seq % 2 ^ 64 ≡ (r.seq + (j + 1)) % 2 ^ 64 = omega (arith, first, count) in
    let equal : ticket_id now r.seq ≡ ticket_id now' r'.seq =
      let e = sym one.told ∙ sym same ∙ two.told in cc in
    ticket_id-distinct now now' r.seq (j + 1) (omega arith) (omega arith)
      (equal ∙ ticket_id-wraps now' r'.seq ∙ ap (ticket_id now') later)
