-- ===== src/Runner/Results.antt =====
-- The job that a ticket leads to, and its result.
use inter_process_communicat.Base.{
  ℕ, ◌≡◌, sym, ap, ◌∙◌, true, some, arith, defined, ◌==◌, ==_iff, length, get_elem?, get_elem?-set,
  get_elem?-append_last, get_elem?-length, Bool-cases, inl, inr,
}
use inter_process_communicat.Base.Eq.{nat_eq}
use inter_process_communicat.Base.Dict.{find, find-assign, find-erase}
use inter_process_communicat.Protocol.{Status, Result, SubmitRequest}
use inter_process_communicat.Operations.{execute}
use inter_process_communicat.Runner.{Job, Runner, new_job}
use inter_process_communicat.Runner.Submit.{ticket_id, enqueue}
use inter_process_communicat.Runner.Get.{take_out}
use inter_process_communicat.Runner.Effect.{Effect, same, finishes, turn-Effect}
use inter_process_communicat.Runner.Cases.{Keeps, Anytime}

-- What a ticket promises of the job that it leads to.
pub record IsSound (id : ℕ) (job : Job) : Type 0 where
  pub named : job.id ≡ id
  pub right : job.done ≡ true → execute job.req.payload ≡ defined (job.status, job.result)

abbrev pub IsFaithful : Runner → Type 0
IsFaithful r =
    (id a : ℕ)
    → find id r.jobs ≡ some a
    → (job : Job) × (get_elem? r.heap a ≡ some job) × IsSound id job

abbrev pub finish : Job → Status → Result → Job
finish job status result = record job { status = status; result = result; done = true }

Effect-IsFaithful : {r r' : Runner} → Effect r r' → IsFaithful r → IsFaithful r'
Effect-IsFaithful (same h j) v id a e = rw h (v id a (rw j at e))
Effect-IsFaithful {r} {r'} (finishes b job status result at x h j) v id a e =
    let (old, at_a, sound) = v id a (rw j at e) in
    elim (Bool-cases (b == a)) [
      | inl hit ↦
          let e' : b ≡ a = (==_iff b a).0 hit in
          let one : old ≡ job = cc in
          (
            finish job status result,
            ground (arith, get_elem?-set r.heap b (finish job status result) a),
            record { named = ap (λ (k : Job). k.id) (sym one) ∙ sound.named; right = λ d. x },
          )
      | inr miss ↦ (old, ground (arith, get_elem?-set r.heap b (finish job status result) a), sound)
    ]

enqueue-IsFaithful :
    (r : Runner) (now pick : ℕ) (req : SubmitRequest)
    → IsFaithful r
    → IsFaithful (enqueue r now pick req).1
unfolding enqueue
enqueue-IsFaithful r now pick req v id a e =
    let t = ticket_id now r.seq in
    let looked = sym (find-assign t id (length r.heap) r.jobs) ∙ e in
    let grown = get_elem?-append_last r.heap (new_job t req) a in
    elim (Bool-cases (t == id)) [
      | inl hit ↦ (
        new_job t req,
        ground (arith, looked, grown),
        record { named = (==_iff t id).0 hit; right = λ d. cc },
      )
      | inr miss ↦
          let (old, at_a, sound) = v id a (ground (arith, looked)) in
          (old, ground (arith, grown, get_elem?-length r.heap), sound)
    ]

take_out-IsFaithful :
    (r : Runner) (id a : ℕ) (job : Job) (old : Result)
    → find id r.jobs ≡ some a
    → get_elem? r.heap a ≡ some job
    → IsFaithful r
    → IsFaithful (take_out r id a job old)
unfolding take_out
take_out-IsFaithful r id a job old f at v id' b e =
    let looked = sym (find-erase id id' r.jobs) ∙ e in
    let (kept, at_b, sound) = v id' b (ground (arith, looked)) in
    let (_, at_a, own) = v id a f in
    (
      kept,
      ground (
        arith,
        looked,
        own.named,
        sound.named,
        get_elem?-set r.heap a (record job { result = old }) b,
      ),
      sound,
    )

pub IsFaithful-Keeps : Keeps IsFaithful Anytime
IsFaithful-Keeps = record {
  on_turn = λ r t r' h v. Effect-IsFaithful (turn-Effect r t h) v;
  on_enqueue = λ r now pick req ok v. enqueue-IsFaithful r now pick req v;
  on_take_out = λ r id a job old f e d v. take_out-IsFaithful r id a job old f e v;
}

-- The job of ticket `t` asks for `req`, or the ticket is no longer known.
abbrev pub Tracks : ℕ → SubmitRequest → Runner → Type 0
Tracks t req r =
    (a : ℕ)
    → find t r.jobs ≡ some a
    → (job : Job) × (get_elem? r.heap a ≡ some job) × (job.req ≡ req)

pub Effect-Tracks :
    {r r' : Runner} (t : ℕ) (req : SubmitRequest) → Effect r r' → Tracks t req r → Tracks t req r'
Effect-Tracks t req (same h j) v a e = rw h (v a (rw j at e))
Effect-Tracks {r} {r'} t req (finishes b job status result at x h j) v a e =
    let (old, at_a, asked) = v a (rw j at e) in
    elim (Bool-cases (b == a)) [
      | inl hit ↦
          let e' : b ≡ a = (==_iff b a).0 hit in
          let one : old ≡ job = cc in
          (
            finish job status result,
            ground (arith, get_elem?-set r.heap b (finish job status result) a),
            ap (λ (k : Job). k.req) (sym one) ∙ asked,
          )
      | inr miss ↦ (old, ground (arith, get_elem?-set r.heap b (finish job status result) a), asked)
    ]

-- A later ticket is another one.
pub enqueue-Tracks :
    (t : ℕ) (req : SubmitRequest) (r : Runner) (now pick : ℕ) (later : SubmitRequest)
    → (ticket_id now r.seq ≡ t → ⊥)
    → Tracks t req r
    → Tracks t req (enqueue r now pick later).1
unfolding enqueue
enqueue-Tracks t req r now pick later other v a e =
    let looked = sym (find-assign (ticket_id now r.seq) t (length r.heap) r.jobs) ∙ e in
    let (kept, at_a, asked) = v a (ground (arith, looked)) in
    (
      kept,
      ground (
        arith,
        get_elem?-append_last r.heap (new_job (ticket_id now r.seq) later) a,
        get_elem?-length r.heap,
      ),
      asked,
    )

pub take_out-Tracks :
    (t : ℕ) (req : SubmitRequest) (r : Runner) (id a : ℕ) (job : Job) (old : Result)
    → get_elem? r.heap a ≡ some job
    → Tracks t req r
    → Tracks t req (take_out r id a job old)
unfolding take_out
take_out-Tracks t req r id a job old at v b e =
    let looked = sym (find-erase id t r.jobs) ∙ e in
    let (kept, at_b, asked) = v b (ground (arith, looked)) in
    let taken : Job = record job { result = old } in
    elim (Bool-cases (a == b)) [
      | inl hit ↦
          let e' : a ≡ b = (==_iff a b).0 hit in
          let one : kept ≡ job = cc in
          (
            taken,
            ground (arith, get_elem?-set r.heap a taken b),
            ap (λ (k : Job). k.req) (sym one) ∙ asked,
          )
      | inr miss ↦ (kept, ground (arith, get_elem?-set r.heap a taken b), asked)
    ]
