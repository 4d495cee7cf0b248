-- ===== src/Server/Lifecycle/Stop.antt =====
-- One server in a process, and its end.
use inter_process_communicat.Base.{
  ℕ, ◌≡◌, refl, ap, ◌∙◌, true, false, List, [], Option, none, some, defined, >>=-eq-defined,
  defined-injective, transfer, transfer_some, ◌<◌, Bool, Bool-cases, inl, inr, ltb, arith,
}
use inter_process_communicat.Base.Int.{ℤ}
use inter_process_communicat.Protocol.{ec_success, ec_failure}
use inter_process_communicat.Errors.{is_success, handle_regular_error}
use inter_process_communicat.Runner.{Runner}
use inter_process_communicat.Runner.Workers
use inter_process_communicat.Runner.Workers.{Turn, turns, stop, join, all_exited}
use inter_process_communicat.Runner.Handle
use inter_process_communicat.Runner.Handle.{AlgoRunner, deinit_impl, emptied}
use inter_process_communicat.Server.{Codec, Round}
use inter_process_communicat.Server.Loop
use inter_process_communicat.Server.Lifecycle.{
  closed, Instance, Process, create_if_none, create, close_router, deinit, init_created,
  server_initialize, stored_if, run_created, server_run, deinit_created, server_deinitialize,
}

create_if_none-counted :
    (p : Process) (threads counted : ℕ) (o : Option Instance)
    → 0 < p.instance_count
    → 0 < (create_if_none p threads counted o).1.instance_count
unfolding create_if_none
create_if_none-counted p threads counted none h = h
create_if_none-counted p threads counted (some i) h = h

create-counted :
    (p : Process) (threads counted : ℕ) → 0 < (create p threads counted).1.instance_count
unfolding create
create-counted p threads counted = elim (Bool-cases (ltb 0 p.instance_count)) [
  | inl again ↦ rw again (ground arith)
  | inr first ↦ rw first (create_if_none-counted _ threads counted p.app_ptr (omega arith))
]

init_created-counted :
    (p : Process) (created : ℕ → Bool) (bind_ok : Bool) (o : Option Instance) {x : ℤ × Process}
    → init_created p created bind_ok o ≡ defined x
    → 0 < p.instance_count
    → 0 < x.1.instance_count
unfolding init_created
init_created-counted p created bind_ok none h lt = cc
init_created-counted p created bind_ok (some i) h lt =
    transfer (λ (x : ℤ × Process). 0 < x.1.instance_count) h lt

server_initialize-counted :
    (p : Process) (threads counted : ℕ) (created : ℕ → Bool) (bind_ok : Bool) {x : ℤ × Process}
    → server_initialize p threads counted created bind_ok ≡ defined x
    → 0 < x.1.instance_count
unfolding server_initialize
server_initialize-counted p threads counted created bind_ok h =
    let lt = create-counted p threads counted in
    elim (Bool-cases (is_success (create p threads counted).0)) [
      | inl ok ↦ init_created-counted _ created bind_ok _ (rw ok at h) lt
      | inr failed ↦ transfer (λ (x : ℤ × Process). 0 < x.1.instance_count) (rw failed at h) lt
    ]

initialize_again :
    (q : Process) (threads counted : ℕ) (created : ℕ → Bool) (bind_ok : Bool)
    → 0 < q.instance_count
    → server_initialize q threads counted created bind_ok ≡ defined (ec_failure, q)
unfolding server_initialize create
initialize_again q threads counted created bind_ok lt =
    let again : ltb 0 q.instance_count ≡ true = ground arith in rw again refl

-- A process creates at most one server: whatever a first `serverInitialize` returns, a later one
-- returns EC_FAILURE and changes nothing.
pub server_initialize-once :
    (p : Process) (threads counted : ℕ) (created : ℕ → Bool) (bind_ok : Bool) {code : ℤ}
    {q : Process}
    → server_initialize p threads counted created bind_ok ≡ defined (code, q)
    → (threads' counted' : ℕ) (created' : ℕ → Bool) (bind_ok' : Bool)
    → server_initialize q threads' counted' created' bind_ok' ≡ defined (ec_failure, q)
server_initialize-once p threads counted created bind_ok {q = q} h threads' counted' created'
      bind_ok' =
    initialize_again q threads' counted' created' bind_ok'
      (server_initialize-counted p threads counted created bind_ok h)

join-success : (r : Runner) {code : ℤ} {q : Runner} → join r ≡ some (code, q) → code ≡ ec_success
unfolding join
join-success r h = elim (Bool-cases (all_exited r.workers)) [
  | inl all ↦ ground (arith)
  | inr some_left ↦ absurd (ground arith)
]

runner_deinit-success :
    (r : Runner) (schedule : List Turn) {code : ℤ} {q : Runner}
    → Workers.deinit r schedule ≡ defined (some (code, q))
    → code ≡ ec_success
unfolding Workers.deinit
runner_deinit-success r schedule h = elim (Bool-cases r.running) [
  | inl on ↦
      let (q, ran, last) = >>=-eq-defined (turns (stop r) schedule) _ (simp on at h) in
      join-success q (defined-injective last)
  | inr off ↦ transfer_some (λ (x : ℤ × Runner). x.0 ≡ ec_success) (simp off at h) refl
]

abbrev Ended : ℤ × AlgoRunner → Type 0
Ended (code, h) = (code ≡ ec_success) × (h.impl ≡ none)

closed-Ended :
    (r : Runner) (schedule : List Turn) (o : Option (ℤ × Runner)) {x : ℤ × AlgoRunner}
    → Workers.deinit r schedule ≡ defined o
    → defined (emptied o) ≡ defined (some x)
    → Ended x
closed-Ended r schedule none ran h = absurd (cc)
closed-Ended r schedule (some (code, q)) ran h =
    transfer_some Ended h (runner_deinit-success r schedule ran, refl)

deinit_impl-Ended :
    (h : AlgoRunner) (schedule : List Turn) (o : Option Runner) {x : ℤ × AlgoRunner}
    → h.impl ≡ o
    → deinit_impl o h schedule ≡ defined (some x)
    → Ended x
unfolding deinit_impl
deinit_impl-Ended h schedule none held e = transfer_some Ended e (refl, held)
deinit_impl-Ended h schedule (some r) held e =
    let (o, ran, fin) = >>=-eq-defined (Workers.deinit r schedule) _ e in
    closed-Ended r schedule o ran fin

-- A server that is over, with the code of its end.
abbrev Closed : ℤ × Instance → Type 0
Closed (code, j) =
    (code ≡ ec_success)
    × (j.app.initialized ≡ false)
    × (j.app.algo_runner.impl ≡ none)
    × (j.router ≡ closed)

close_router-Closed :
    (i : Instance) (o : Option (ℤ × AlgoRunner)) {x : ℤ × Instance}
    → ((y : ℤ × AlgoRunner) → o ≡ some y → Ended y)
    → defined (close_router i o) ≡ defined (some x)
    → Closed x
unfolding close_router
close_router-Closed i none k h = absurd (cc)
close_router-Closed i (some (code, r)) k h =
    let (won, gone) = k (code, r) refl in
    transfer_some Closed (rw won at h) (refl, refl, gone, refl)

deinit-Closed :
    (i : Instance) (schedule : List Turn) {x : ℤ × Instance}
    → i.app.initialized ≡ true
    → deinit i schedule ≡ defined (some x)
    → Closed x
unfolding deinit Handle.deinit
deinit-Closed i schedule on h =
    let (o, ran, fin) =
      >>=-eq-defined (Handle.deinit i.app.algo_runner schedule) _ (simp on at h) in
    close_router-Closed i o
      (λ y e.
        deinit_impl-Ended i.app.algo_runner schedule i.app.algo_runner.impl refl
          (ran ∙ ap defined e))
      fin

-- What holds of a process whose server is over.
pub record Over (code : ℤ) (q : Process) : Type 0 where
  pub ended : code ≡ ec_success
  pub instance_left : Instance
  pub held : q.app_ptr ≡ some instance_left
  pub off : instance_left.app.initialized ≡ false
  pub no_pool : instance_left.app.algo_runner.impl ≡ none
  pub shut : instance_left.router ≡ closed
  pub deinitialize_again :
      (later : List Turn) → server_deinitialize q later ≡ defined (some (ec_failure, q))
  pub run_again :
      (codec : Codec) (rounds : List Round)
      → server_run codec q rounds
        ≡ defined (record { process = q; frames = []; code = some ec_failure })

Closed-Over :
    (p : Process) (code : ℤ) (j : Instance)
    → Closed (code, j)
    → Over code (record p { app_ptr = some j })
unfolding server_deinitialize deinit_created deinit server_run run_created Loop.run
    handle_regular_error
Closed-Over p code j (won, off, gone, shut) = record {
  ended = won;
  instance_left = j;
  held = refl;
  off = off;
  no_pool = gone;
  shut = shut;
  deinitialize_again = λ later. simp off refl;
  run_again = λ codec rounds. simp off refl;
}

stored-Over :
    (p : Process) (o : Option (ℤ × Instance)) {code : ℤ} {q : Process}
    → ((x : ℤ × Instance) → o ≡ some x → Closed x)
    → defined (stored_if p o) ≡ defined (some (code, q))
    → Over code q
stored-Over p none k h = absurd (cc)
stored-Over p (some (c, j)) k h =
    transfer_some (λ (x : ℤ × Process). Over x.0 x.1) h (Closed-Over p c j (k (c, j) refl))

-- If `serverDeinitialize` of an initialized server returns, then with EC_SUCCESS; the pool is gone, the
-- socket closed and the server not initialized any more, so that a further `serverDeinitialize` or
-- `serverRun` returns EC_FAILURE and changes nothing.
pub server_deinitialize-Over :
    (p : Process) (i : Instance) (schedule : List Turn) {code : ℤ} {q : Process}
    → p.app_ptr ≡ some i
    → i.app.initialized ≡ true
    → server_deinitialize p schedule ≡ defined (some (code, q))
    → Over code q
unfolding server_deinitialize deinit_created
server_deinitialize-Over p i schedule e on h =
    let (o, ran, fin) = >>=-eq-defined (deinit i schedule) _ (rw (e, deinit_created) at h) in
    stored-Over p o (λ x e'. deinit-Closed i schedule on (ran ∙ ap defined e')) fin
