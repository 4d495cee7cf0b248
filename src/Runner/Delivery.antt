-- ===== src/Runner/Delivery.antt =====
-- A request that the pool takes, works off and is asked for.
use inter_process_communicat.Base.{
  ℕ, ◌+◌, ◌≤◌, ◌≡◌, ◌≢◌, sym, ap, ◌∙◌, subst, true, List, arith, some, defined, defined-injective,
  length,
}
use inter_process_communicat.Base.Eq.{nat_eq, bytes_eq}
use inter_process_communicat.Base.Dict.{find}
use inter_process_communicat.Protocol.{
  Status, Result, nonblocking, SubmitRequest, SubmitResponse, new_submit_response, wait_unnamed,
  GetRequest, GetResponse, new_get_response,
}
use inter_process_communicat.Operations.{execute}
use inter_process_communicat.Runner.{Runner, new_runner, Reply}
use inter_process_communicat.Runner.Workers.{Turn, turns}
use inter_process_communicat.Runner.Submit
use inter_process_communicat.Runner.Submit.{has_payload, enqueue}
use inter_process_communicat.Runner.Get
use inter_process_communicat.Runner.Get.{Waiting, req_id}
use inter_process_communicat.Runner.Cases.{Anytime}
use inter_process_communicat.Runner.History.{Reach, here}
use inter_process_communicat.Runner.Tickets.{Issued, run-Issued}
use inter_process_communicat.Runner.Progress.{IsExecutable}
use inter_process_communicat.Runner.Effort.{work_left}
use inter_process_communicat.Runner.Rounds.{Rounds}
use inter_process_communicat.Runner.Liveness.{ticket-Delivered}
use inter_process_communicat.Runner.Enqueued.{
  enqueue-running, enqueue-length, enqueue-work_left, find-enqueue, enqueue-IsExecutable,
}

-- The pool takes a request, works through its rounds, and is asked for the ticket.
pub pool-delivers :
    (seq k : ℕ) (r : Runner) (now pick : ℕ) (req : SubmitRequest) (g : GetRequest) (status : Status)
    (result : Result) (schedule : List Turn) (env : Waiting) {out : Reply SubmitResponse}
    → Reach Anytime (new_runner seq) r
    → IsExecutable r
    → r.running ≡ true
    → 1 ≤ length r.workers
    → execute req.payload ≡ defined (status, result)
    → req.mode ≡ nonblocking
    → has_payload req.payload ≡ true
    → Submit.run r now pick req new_submit_response ≡ defined out
    → g.ticket ≡ out.response.ticket
    → work_left r + 3 ≤ k
    → Rounds (length r.workers) k schedule
    → ((u : ℕ) → g.wait_mode ≢ wait_unnamed u)
    → (q : Runner) × (got : Reply GetResponse) × (turns out.runner schedule ≡ defined q)
      × (Get.get q env g new_get_response ≡ defined (some got))
      × (got.response ≡ record { status = status; result = some result })
pool-delivers seq k r now pick req g status result schedule env {out} reach sane on staffed x m p
      ran told few fair known =
    let (q, got, _, _, worked, gets, evaluates, answer, _) =
      ticket-Delivered seq k r out.runner now pick (length r.heap) req new_submit_response schedule
        env g reach m p ran here found executable running present enough rounds told known in
    let same = defined-injective (sym evaluates ∙ x) in
    (q, got, worked, gets, answer ∙ ap (λ o. record { status = o.0; result = some o.1 }) same)
  where
    issued : Issued r now pick req out
    issued =
        let (out₀, ran₀, i) = run-Issued r now pick req new_submit_response m p in
        subst (Issued r now pick req) (defined-injective (sym ran₀ ∙ ran)) i

    found : find (req_id out.response.ticket) out.runner.jobs ≡ some (length r.heap)
    found =
        subst (λ o. find (req_id o) out.runner.jobs ≡ some (length r.heap)) (sym issued.told)
          (rw issued.after (find-enqueue r now pick req))

    executable : IsExecutable out.runner
    executable =
        subst IsExecutable (sym issued.after)
          (enqueue-IsExecutable r now pick req (status, result) x sane)

    running : out.runner.running ≡ true
    running = rw issued.after (enqueue-running r now pick req ∙ on)

    threads : length out.runner.workers ≡ length r.workers
    threads = rw issued.after (enqueue-length r now pick req)

    present : 1 ≤ length out.runner.workers
    present = omega (arith, threads, staffed)

    enough : work_left out.runner ≤ k
    enough =
        subst (λ q. work_left q ≤ k) (sym issued.after)
          (omega (arith, few, enqueue-work_left r now pick req))

    rounds : Rounds (length out.runner.workers) k schedule
    rounds = subst (λ n. Rounds n k schedule) (sym threads) fair
