-- ===== src/Runner/Enqueued.antt =====
-- The runner after `enqueue`.
use inter_process_communicat.Base.{
  ℕ, ◌+◌, ◌≡◌, refl, ap, ◌∙◌, sym, List, [], ◌∷◌, map, some, arith, defined, ◌==◌, length,
  length-append, get_elem?-append_last, Bool-cases, inl, inr,
}
use inter_process_communicat.Base.Eq.{nat_eq}
use inter_process_communicat.Base.Dict.{find, find-assign_self}
use inter_process_communicat.Protocol.{Status, Result, SubmitRequest}
use inter_process_communicat.Operations.{execute}
use inter_process_communicat.Runner.{Job, Worker, before_wait, Runner, new_job}
use inter_process_communicat.Runner.Submit.{ticket_id, settled, signal, enqueue}
use inter_process_communicat.Runner.Tally.{tally, tally-map, tally-signal}
use inter_process_communicat.Runner.Progress.{IsExecutable}
use inter_process_communicat.Runner.Effort.{effort, work_left}

length-tally : (ws : List Worker) → length ws ≡ tally (λ s. 1) ws
length-tally [] = refl
length-tally (w ∷ ws) = omega (arith, length-tally ws)

effort-settled : (s : Worker) → effort (settled s) ≡ effort s
effort-settled before_wait = refl
effort-settled _ = refl

module _ (r : Runner) (now pick : ℕ) (req : SubmitRequest) where
  pub enqueue-running : (enqueue r now pick req).1.running ≡ r.running
  unfolding enqueue
  enqueue-running = refl

  pub enqueue-length : length (enqueue r now pick req).1.workers ≡ length r.workers
  unfolding enqueue
  enqueue-length = omega (
    arith,
    length-tally (signal pick (map settled r.workers)),
    length-tally r.workers,
    tally-signal (λ s. 1) refl pick (map settled r.workers),
    tally-map (λ s. 1) settled (λ s. refl) r.workers,
  )

  -- One more job is three turns more.
  pub enqueue-work_left : work_left (enqueue r now pick req).1 ≡ work_left r + 3
  unfolding enqueue
  enqueue-work_left = omega (
    arith,
    length-append r.queue (length r.heap ∷ []),
    tally-signal effort refl pick (map settled r.workers),
    tally-map effort settled effort-settled r.workers,
  )

  pub find-enqueue :
      find (ticket_id now r.seq) (enqueue r now pick req).1.jobs ≡ some (length r.heap)
  unfolding enqueue
  find-enqueue = find-assign_self (ticket_id now r.seq) (length r.heap) r.jobs

  pub enqueue-IsExecutable :
      (o : Status × Result)
      → execute req.payload ≡ defined o
      → IsExecutable r
      → IsExecutable (enqueue r now pick req).1
  unfolding enqueue new_job
  enqueue-IsExecutable o x v a job e =
      let grown = sym (get_elem?-append_last r.heap (new_job (ticket_id now r.seq) req) a) ∙ e in
      elim (Bool-cases (length r.heap == a)) [
        | inl last ↦
            let one : new_job (ticket_id now r.seq) req ≡ job = ground (arith, grown) in
            (o, ap (λ (k : Job). execute k.req.payload) (sym one) ∙ x)
        | inr before ↦ v a job (ground (arith, grown))
      ]
