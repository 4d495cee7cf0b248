-- ===== src/Server/Lifecycle/Laws.antt =====
-- Starting and stopping the server.
use inter_process_communicat.Base.{ℕ, ◌≡◌, refl, true, false, List, [], none, some, defined, Bool}
use inter_process_communicat.Protocol.{ec_success, ec_failure}
use inter_process_communicat.Errors.{handle_regular_error}
use inter_process_communicat.Runner.{Runner, new_runner}
use inter_process_communicat.Runner.Workers
use inter_process_communicat.Runner.Workers.{Turn, spawn, join, all_exited}
use inter_process_communicat.Runner.Handle
use inter_process_communicat.Runner.Handle.{AlgoRunner, init_impl, deinit_impl}
use inter_process_communicat.Runner.Cases.{Anytime}
use inter_process_communicat.Runner.History.{Reach, here, next, starts}
use inter_process_communicat.Server.Lifecycle.{
  bound, Instance, Process, new_application, create_if_none, create, bind_router, init, deinit,
  init_created, server_initialize, deinit_created, server_deinitialize,
}

-- The runner of `init`.
abbrev started : ℕ → ℕ → (ℕ → Bool) → Runner
started counted threads created = (Workers.init (new_runner counted) threads created).1

started-Reach :
    (counted threads : ℕ) (created : ℕ → Bool)
    → Reach Anytime (new_runner counted) (started counted threads created)
started-Reach counted threads created = next here (starts threads created refl) tt

-- An instance after `init`, up to the bind: no client is known, and the started threads are about to
-- enter their loop.
pub record Started (counted threads : ℕ) (created : ℕ → Bool) (i : Instance) : Type 0 where
  pub runner : Runner
  pub held : i.app.algo_runner.impl ≡ some runner
  pub reached : Reach Anytime (new_runner counted) runner
  pub on : runner.running ≡ true
  pub threads_run : runner.workers ≡ spawn threads 0 created
  pub no_clients : i.app.client_exec_caps ≡ []

-- The first `serverInitialize` of a process whose bind succeeds returns EC_SUCCESS, and leaves an
-- initialized server on a bound socket, with a running pool that a new one reaches.
pub server_initialize-Started :
    (p : Process) (threads counted : ℕ) (created : ℕ → Bool)
    → p.instance_count ≡ 0
    → p.app_ptr ≡ none
    → (q : Process) × (i : Instance) × (server_initialize p threads counted created true
        ≡ defined (ec_success, q))
      × (q.app_ptr ≡ some i)
      × (i.app.initialized ≡ true)
      × (i.router ≡ bound)
      × Started counted threads created i
unfolding server_initialize create create_if_none init_created init bind_router new_application
    Handle.init init_impl handle_regular_error Workers.init new_runner
server_initialize-Started p threads counted created fresh absent =
    let i : Instance = record (new_application threads counted) {
      app = record (new_application threads counted).app {
        algo_runner = record { impl = some (started counted threads created); counted = counted };
        initialized = true;
      };
      router = bound;
    } in
    (
      record { instance_count = 1; app_ptr = some i; sig_stop = p.sig_stop },
      i,
      rw (fresh, absent) refl,
      refl,
      refl,
      refl,
      record {
        runner = started counted threads created;
        held = refl;
        reached = started-Reach counted threads created;
        on = refl;
        threads_run = refl;
        no_clients = refl;
      },
    )

-- If its bind fails, it returns EC_FAILURE and leaves an instance that is not initialized, with a
-- running pool; `serverDeinitialize` then returns EC_FAILURE at once, and changes nothing: the threads
-- stay as they are.
pub server_initialize-bind_fails :
    (p : Process) (threads counted : ℕ) (created : ℕ → Bool) (schedule : List Turn)
    → p.instance_count ≡ 0
    → p.app_ptr ≡ none
    → (q : Process) × (i : Instance) × (server_initialize p threads counted created false
        ≡ defined (ec_failure, q))
      × (q.app_ptr ≡ some i)
      × (i.app.initialized ≡ false)
      × Started counted threads created i
      × (server_deinitialize q schedule ≡ defined (some (ec_failure, q)))
unfolding server_initialize create create_if_none init_created init bind_router new_application
    Handle.init init_impl handle_regular_error Workers.init new_runner server_deinitialize
    deinit_created deinit
server_initialize-bind_fails p threads counted created schedule fresh absent =
    let i : Instance = record (new_application threads counted) {
      app = record (new_application threads counted).app {
        algo_runner = record { impl = some (started counted threads created); counted = counted };
      };
    } in
    (
      record { instance_count = 1; app_ptr = some i; sig_stop = p.sig_stop },
      i,
      rw (fresh, absent) refl,
      refl,
      refl,
      record {
        runner = started counted threads created;
        held = refl;
        reached = started-Reach counted threads created;
        on = refl;
        threads_run = refl;
        no_clients = refl;
      },
      refl,
    )
