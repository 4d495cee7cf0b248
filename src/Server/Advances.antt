-- ===== src/Server/Advances.antt =====
-- The runner through the requests of a client and the turns of the workers.
use inter_process_communicat.Base.{
  ℕ, ◌≡◌, refl, sym, ap, ◌∙◌, List, [], ◌∷◌, Option, none, some, defined, >>=-eq-defined,
  defined-injective, defined_some-injective, transfer, transfer_some, Bool-cases, inl, inr,
}
use inter_process_communicat.Base.Eq.{bytes_eq}
use inter_process_communicat.Protocol.{
  SubmitRequest, SubmitResponse, GetRequest, GetResponse, EnvelopeReq, req_not_set, submit_req,
  get_req, EnvelopeResp, new_submit_response, new_get_response,
}
use inter_process_communicat.Caps.{client_has_capability_for}
use inter_process_communicat.Runner.{Runner, Reply}
use inter_process_communicat.Runner.Workers.{Turn, turn, turns}
use inter_process_communicat.Runner.Submit
use inter_process_communicat.Runner.Get
use inter_process_communicat.Runner.Get.{Waiting}
use inter_process_communicat.Runner.Cases.{Anytime}
use inter_process_communicat.Runner.History.{works, submits, fetches, Reach, here, next}
use inter_process_communicat.Runner.Handle
use inter_process_communicat.Runner.Handle.{
  AlgoRunner, Handled, handled_if, run_impl, get_impl, work_impl, work, holding, handled,
}
use inter_process_communicat.Server.{Env}
use inter_process_communicat.Server.Envelope.{as_get, handle_envelope}

-- Where there is a runner, there still is one, which it reaches.
abbrev pub Advances : AlgoRunner → AlgoRunner → Type 0
Advances h h' =
    (r : Runner) → h.impl ≡ some r → (r' : Runner) × (h'.impl ≡ some r') × Reach Anytime r r'

pub Reach-trans : {r s t : Runner} → Reach Anytime r s → Reach Anytime s t → Reach Anytime r t
Reach-trans p here = p
Reach-trans p (next q step ok) = next (Reach-trans p q) step ok

pub Advances-refl : (h : AlgoRunner) → Advances h h
Advances-refl h r e = (r, e, here)

pub Advances-trans : (h i j : AlgoRunner) → Advances h i → Advances i j → Advances h j
Advances-trans h i j p q r e =
    let (s, e', reach) = p r e in
    let (t, e'', reach') = q s e' in (t, e'', Reach-trans reach reach')

turns-Reach :
    (r : Runner) (ts : List Turn) {r' : Runner} → turns r ts ≡ defined r' → Reach Anytime r r'
unfolding turns
turns-Reach r [] h = transfer (Reach Anytime r) h here
turns-Reach r (t ∷ ts) h =
    let (q, first, rest) = >>=-eq-defined (turn r t) (λ q. turns q ts) h in
    Reach-trans (next here (works t first) tt) (turns-Reach q ts rest)

pub work-Advances :
    (h : AlgoRunner) (ts : List Turn) {h' : AlgoRunner} → work h ts ≡ defined h' → Advances h h'
unfolding work work_impl
work-Advances h ts {h'} w r e =
    let (q, ran, fin) = >>=-eq-defined (turns r ts) _ (rw (e, work_impl) at w) in
    (q, ap (λ (z : AlgoRunner). z.impl) (sym (defined-injective fin)), turns-Reach r ts ran)

run-Advances :
    (h : AlgoRunner) (now pick : ℕ) (req : SubmitRequest) (response : SubmitResponse)
    {x : Handled SubmitResponse}
    → Handle.run h now pick req response ≡ defined x
    → Advances h x.handle
unfolding Handle.run run_impl
run-Advances h now pick req response {x} w r e =
    let (y, ran, fin) =
      >>=-eq-defined (Submit.run r now pick req response) _ (rw (e, run_impl) at w) in
    (
      y.runner,
      ap (λ (z : Handled SubmitResponse). z.handle.impl) (sym (defined-injective fin)),
      next here (submits now pick req response y ran refl) tt,
    )

get-Advances :
    (h : AlgoRunner) (env : Waiting) (req : GetRequest) (response : GetResponse)
    {x : Handled GetResponse}
    → Handle.get h env req response ≡ defined (some x)
    → Advances h x.handle
unfolding Handle.get get_impl
get-Advances h env req response {x} w r e =
    let (y, ran, fin) = >>=-eq-defined (Get.get r env req response) _ (rw (e, get_impl) at w) in
    got y ran fin
  where
    got :
        (y : Option (Reply GetResponse))
        → Get.get r env req response ≡ defined y
        → defined (handled_if h y) ≡ defined (some x)
        → (r' : Runner) × (x.handle.impl ≡ some r') × Reach Anytime r r'
    got none ran fin = absurd (cc)
    got (some y) ran fin = (
      y.runner,
      ap (λ (z : Handled GetResponse). z.handle.impl) (sym (defined_some-injective fin)),
      next here (fetches env req response y ran refl) tt,
    )

as_get-Advances :
    (h : AlgoRunner) (o : Option (Handled GetResponse)) {x : Handled EnvelopeResp}
    → ((y : Handled GetResponse) → o ≡ some y → Advances h y.handle)
    → defined (as_get o) ≡ defined (some x)
    → Advances h x.handle
as_get-Advances h none k e = cc
as_get-Advances h (some y) k e =
    transfer_some (λ (z : Handled EnvelopeResp). Advances h z.handle) e (k y refl)

pub handle_envelope-Advances :
    (h : AlgoRunner) (req : EnvelopeReq) (caps : ℕ) (env : Env) {x : Handled EnvelopeResp}
    → handle_envelope h req caps env ≡ defined (some x)
    → Advances h x.handle
unfolding handle_envelope
handle_envelope-Advances h (submit_req sreq) caps env w =
    elim (Bool-cases (client_has_capability_for sreq.payload caps)) [
      | inl can ↦
          let (y, ran, fin) =
            >>=-eq-defined (Handle.run h env.now env.pick sreq new_submit_response) _
              (rw can at w) in
          transfer_some (λ (z : Handled EnvelopeResp). Advances h z.handle) fin
            (run-Advances h env.now env.pick sreq new_submit_response ran)
      | inr cannot ↦
          transfer_some (λ (z : Handled EnvelopeResp). Advances h z.handle) (rw cannot at w)
            (Advances-refl h)
    ]
handle_envelope-Advances h (get_req greq) caps env w =
    let (o, ran, fin) = >>=-eq-defined (Handle.get h env.waiting greq new_get_response) _ w in
    as_get-Advances h o
      (λ y e. get-Advances h env.waiting greq new_get_response (ran ∙ ap defined e)) fin
handle_envelope-Advances h req_not_set caps env w =
    transfer_some (λ (z : Handled EnvelopeResp). Advances h z.handle) w (Advances-refl h)
