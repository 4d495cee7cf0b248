-- ===== src/Runner/Returns.antt =====
-- When a `get` returns.
pub mod Tests
use inter_process_communicat.Base.{
  ℕ, ◌≡◌, ◌≢◌, refl, ◌⊎◌, inl, inr, true, false, not, ◌&&◌, ◌==◌, List, [], ◌∷◌, Option, none, some,
  arith, defined, >>=-eq-defined, get_elem?, Bool-cases, Option-cases, Outcome-cases,
}
use inter_process_communicat.Base.Eq.{nat_eq}
use inter_process_communicat.Base.Dict.{find}
use inter_process_communicat.Protocol.{
  GetRequest, GetResponse, GetWaitMode, no_wait, wait_up_to, wait_unnamed,
}
use inter_process_communicat.Runner.{Job, Runner, new_runner, Reply}
use inter_process_communicat.Runner.Workers.{turns}
use inter_process_communicat.Runner.Get.{
  Waiting, Wake, is_done, wait_loop, hand_out, after_wait, add_ms_to_timespec, get_mode, get_found,
  get, req_id,
}
use inter_process_communicat.Runner.Cases.{Anytime}
use inter_process_communicat.Runner.History.{Reach}
use inter_process_communicat.Runner.Results.{IsFaithful}
use inter_process_communicat.Runner.Tickets.{Reach-IsFaithful}

-- One of the waits returns a code that is not 0.
abbrev pub TimesOut : List Wake → Type 0
TimesOut [] = ⊥
TimesOut (k ∷ ks) = (k.code ≢ 0) ⊎ TimesOut ks

wait_loop-ends :
    (r : Runner) (a timeout : ℕ) (ks : List Wake)
    → (timeout ≢ 0) ⊎ TimesOut ks
    → wait_loop r a timeout ks ≢ defined none
unfolding wait_loop
wait_loop-ends r a timeout [] (inl over) h = ground arith
wait_loop-ends r a timeout [] (inr never) h = never
wait_loop-ends r a timeout (k ∷ ks) ends h =
    elim (Bool-cases (not (is_done (get_elem? r.heap a)) && timeout == 0)) [
      | inl waits ↦
          let (q, ran, rest) = >>=-eq-defined (turns r k.others) _ (rw waits at h) in
          wait_loop-ends q a k.code ks (still waits ends) rest
      | inr stops ↦ cc (rw stops at h)
    ]
  where
    still :
        not (is_done (get_elem? r.heap a)) && timeout == 0 ≡ true
        → (timeout ≢ 0) ⊎ TimesOut (k ∷ ks)
        → (k.code ≢ 0) ⊎ TimesOut ks
    still waits (inl over) = absurd (ground arith)
    still waits (inr later) = later

after_wait-ends :
    (id a : ℕ) (response : GetResponse) (r : Runner)
    → after_wait id a response (some r) ≢ defined none
unfolding after_wait
after_wait-ends id a response r h =
    let (x, _, e) = >>=-eq-defined (hand_out r id a response (get_elem? r.heap a)) _ h in cc

get_mode-ends :
    (mode : GetWaitMode) (r : Runner) (env : Waiting) (ms id a : ℕ) (response : GetResponse)
    → TimesOut (env.wakes (add_ms_to_timespec env.clock ms))
    → get_mode mode r env ms id a response ≢ defined none
unfolding get_mode
get_mode-ends no_wait r env ms id a response ends h = after_wait-ends id a response r h
get_mode-ends wait_up_to r env ms id a response ends h =
    let ks = env.wakes (add_ms_to_timespec env.clock ms) in
    let (o, ran, e) = >>=-eq-defined (wait_loop r a 0 ks) _ h in waited o ran e
  where
    waited :
        (o : Option Runner)
        → wait_loop r a 0 (env.wakes (add_ms_to_timespec env.clock ms)) ≡ defined o
        → after_wait id a response o ≡ defined none
        → ⊥
    waited none ran e = wait_loop-ends r a 0 _ (inr ends) ran
    waited (some q) ran e = after_wait-ends id a response q e
get_mode-ends (wait_unnamed n) r env ms id a response ends h = cc

-- A `get` does not wait beyond the first return of pthread_cond_timedwait with a code that is not 0, as
-- it has once the deadline is over, whatever the runner is and does meanwhile.
pub get-ends :
    (r : Runner) (env : Waiting) (g : GetRequest) (response : GetResponse)
    → TimesOut (env.wakes (add_ms_to_timespec env.clock g.timeout_ms))
    → get r env g response ≢ defined none
unfolding get get_found
get-ends r env g response ends h = elim (Option-cases (find (req_id g.ticket) r.jobs)) [
  | inl unknown ↦ cc (rw (unknown, get_found) at h)
  | inr (a, known) ↦
      get_mode-ends g.wait_mode r env g.timeout_ms (req_id g.ticket) a response ends
        (rw (known, get_found) at h)
]

hand_out-returns :
    (r : Runner) (id a : ℕ) (response : GetResponse) (job : Job)
    → (out : Reply GetResponse) × (hand_out r id a response (some job) ≡ defined out)
unfolding hand_out
hand_out-returns r id a response job = elim (Outcome-cases (hand_out r id a response (some job))) [
  | inl over ↦ absurd (ground arith)
  | inr (out, e) ↦ (out, e)
]

get_mode-returns :
    (mode : GetWaitMode) (r : Runner) (env : Waiting) (ms id a : ℕ) (response : GetResponse)
    (job : Job)
    → mode ≢ wait_up_to
    → get_elem? r.heap a ≡ some job
    → (out : Reply GetResponse) × (get_mode mode r env ms id a response ≡ defined (some out))
unfolding get_mode after_wait
get_mode-returns no_wait r env ms id a response job ne at_a =
    let (out, e) = hand_out-returns r id a response job in (out, rw (at_a, e) refl)
get_mode-returns wait_up_to r env ms id a response job ne at_a = absurd (ne refl)
get_mode-returns (wait_unnamed n) r env ms id a response job ne at_a = (_, refl)

-- In every state that a new runner reaches, a `get` that does not ask to wait returns at once, for
-- every ticket.
pub get-returns_at_once :
    (seq : ℕ) (r : Runner) (env : Waiting) (g : GetRequest) (response : GetResponse)
    → Reach Anytime (new_runner seq) r
    → g.wait_mode ≢ wait_up_to
    → (out : Reply GetResponse) × (get r env g response ≡ defined (some out))
unfolding get get_found
get-returns_at_once seq r env g response before ne = found (find (req_id g.ticket) r.jobs) refl
  where
    found :
        (o : Option ℕ)
        → find (req_id g.ticket) r.jobs ≡ o
        → (out : Reply GetResponse) × (get_found o r env g response ≡ defined (some out))
    found none e = (_, refl)
    found (some a) e =
        let (job, at_a, sound) = Reach-IsFaithful seq before (req_id g.ticket) a e in
        get_mode-returns g.wait_mode r env g.timeout_ms (req_id g.ticket) a response job ne at_a
