-- ===== src/Runner/History.antt =====
-- The runner through any sequence of operations.
use inter_process_communicat.Base.{
  ℕ, ◌≡◌, subst, Bool, true, List, [], ◌++◌, some, defined, >>=-eq-defined, transfer_some,
  Bool-cases, inl, inr, if_keeps,
}
use inter_process_communicat.Base.Int.{ℤ}
use inter_process_communicat.Base.Eq.{nat_eq}
use inter_process_communicat.Protocol.{SubmitRequest, SubmitResponse, GetRequest, GetResponse}
use inter_process_communicat.Runner.{Runner, Reply}
use inter_process_communicat.Runner.Workers.{
  Turn, turn, turns, init, stop, all_exited, join, deinit, spawn,
}
use inter_process_communicat.Runner.Submit.{run}
use inter_process_communicat.Runner.Get.{Waiting, get}
use inter_process_communicat.Runner.Cases.{Keeps, turns-keeps, run-keeps, get-keeps}

-- One operation of the runner, or one turn of a worker.
pub data Step (r r' : Runner) : Type 0 where
  works : (t : Turn) → turn r t ≡ defined r' → Step r r'
  submits :
      (now pick : ℕ) (req : SubmitRequest) (response : SubmitResponse) (out : Reply SubmitResponse)
      → run r now pick req response ≡ defined out
      → out.runner ≡ r'
      → Step r r'
  fetches :
      (env : Waiting) (req : GetRequest) (response : GetResponse) (out : Reply GetResponse)
      → get r env req response ≡ defined (some out)
      → out.runner ≡ r'
      → Step r r'
  starts : (n : ℕ) (created : ℕ → Bool) → (init r n created).1 ≡ r' → Step r r'
  stops :
      (schedule : List Turn) (code : ℤ) → deinit r schedule ≡ defined (some (code, r')) → Step r r'

-- The step submits nothing, or submits at a time that is allowed.
abbrev pub Permits : (Runner → ℕ → Type 0) → {r r' : Runner} → Step r r' → Type 0
Permits Allowed (works t h) = Unit
Permits Allowed {r} (submits now pick req response out h e) = Allowed r now
Permits Allowed (fetches env req response out h e) = Unit
Permits Allowed (starts n created e) = Unit
Permits Allowed (stops schedule code h) = Unit

pub data Reach (Allowed : Runner → ℕ → Type 0) (r : Runner) : Runner → Type 0 where
  here : Reach Allowed r r
  next :
      {s t : Runner}
      → Reach Allowed r s
      → (step : Step s t) → Permits Allowed step
      → Reach Allowed r t

-- A predicate that every operation keeps.
pub record KeepsAll (P : Runner → Type 0) (Allowed : Runner → ℕ → Type 0) : Type 0 where
  pub keeps : Keeps P Allowed
  pub on_init :
      (r : Runner) (n : ℕ) (created : ℕ → Bool)
      → P r
      → P (record r { running = true; workers = r.workers ++ spawn n 0 created })
  pub on_stop : (r : Runner) → P r → P (stop r)
  pub on_join : (r : Runner) → all_exited r.workers ≡ true → P r → P (record r { workers = [] })

module _ (P : Runner → Type 0) (Allowed : Runner → ℕ → Type 0) (k : KeepsAll P Allowed) where
  joined :
      (r : Runner) {code : ℤ} {r' : Runner}
      → defined (join r) ≡ defined (some (code, r'))
      → P r
      → P r'
  unfolding join
  joined r h v = elim (Bool-cases (all_exited r.workers)) [
    | inl all ↦ transfer_some (λ (x : ℤ × Runner). P x.1) (rw all at h) (k.on_join r all v)
    | inr none_yet ↦ absurd (cc (rw none_yet at h))
  ]

  deinit-keeps :
      (r : Runner) (schedule : List Turn) {code : ℤ} {r' : Runner}
      → deinit r schedule ≡ defined (some (code, r'))
      → P r
      → P r'
  unfolding deinit
  deinit-keeps r schedule h v = elim (Bool-cases r.running) [
    | inl on ↦
        let (q, ran, last) = >>=-eq-defined (turns (stop r) schedule) _ (simp on at h) in
        joined q last (turns-keeps P k.keeps.on_turn (stop r) schedule ran (k.on_stop r v))
    | inr off ↦ transfer_some (λ (x : ℤ × Runner). P x.1) (simp off at h) v
  ]

  pub Step-keeps : {r r' : Runner} (step : Step r r') → Permits Allowed step → P r → P r'
  unfolding init
  Step-keeps {r} {r'} (works t h) ok v = k.keeps.on_turn r t r' h v
  Step-keeps {r} (submits now pick req response out h e) ok v =
      subst P e (run-keeps P Allowed k.keeps r now pick req response h ok v)
  Step-keeps {r} (fetches env req response out h e) ok v =
      subst P e (get-keeps P Allowed k.keeps r env req response h v)
  Step-keeps {r} (starts n created e) ok v =
      subst P e (if_keeps (λ (x : ℤ × Runner). P x.1) r.running _ _ v (k.on_init r n created v))
  Step-keeps {r} (stops schedule code h) ok v = deinit-keeps r schedule h v

  pub Reach-keeps : {r r' : Runner} → Reach Allowed r r' → P r → P r'
  Reach-keeps here v = v
  Reach-keeps (next before step ok) v = Step-keeps step ok (Reach-keeps before v)
