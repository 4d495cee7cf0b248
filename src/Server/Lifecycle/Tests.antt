-- ===== src/Server/Lifecycle/Tests.antt =====
-- A process that starts its server, and one that stops it.
use inter_process_communicat.Base.{◌≡◌, refl, true, false, [], ◌∷◌, some, none, defined}
use inter_process_communicat.Protocol.{ec_success}
use inter_process_communicat.Errors.{handle_regular_error}
use inter_process_communicat.Runner.{new_runner}
use inter_process_communicat.Runner.Workers
use inter_process_communicat.Runner.Workers.{
  go, spawn, broadcast, stop, join, all_exited, turns, turn, step_if_any, step_worker,
}
use inter_process_communicat.Runner.{set_worker, at_loop}
use inter_process_communicat.Runner.Handle
use inter_process_communicat.Runner.Handle.{init_impl, deinit_impl}
use inter_process_communicat.Server.Lifecycle.{
  bound, closed, Instance, Process, new_application, create_if_none, create, bind_router, init,
  close_router, deinit, init_created, server_initialize, deinit_created, server_deinitialize,
}
use inter_process_communicat.Server.Lifecycle.Stop.{Over, server_deinitialize-Over}

abbrev new_process : Process
new_process = record { instance_count = 0; app_ptr = none; sig_stop = false }

abbrev server_of_one : Instance
server_of_one = record {
  app = record {
    client_exec_caps = [];
    algo_runner = record {
      impl = some (record {
        heap = [];
        jobs = [];
        queue = [];
        workers = at_loop ∷ [];
        running = true;
        seq = 0;
      });
      counted = 0;
    };
    initialized = true;
  };
  threads = 1;
  router = bound;
}

abbrev running_process : Process
running_process = record { instance_count = 1; app_ptr = some server_of_one; sig_stop = false }

initialize :
    server_initialize new_process 1 0 (λ i. true) true ≡ defined (ec_success, running_process)
unfolding server_initialize create create_if_none new_application init_created init bind_router
    Handle.init init_impl Workers.init new_runner spawn handle_regular_error
initialize = refl

abbrev over_process : Process
over_process = record running_process {
  app_ptr = some (record server_of_one {
    app = record server_of_one.app {
      algo_runner = record { impl = none; counted = 0 };
      initialized = false;
    };
    router = closed;
  });
}

deinitialize :
    server_deinitialize running_process (go 0 ∷ []) ≡ defined (some (ec_success, over_process))
unfolding server_deinitialize deinit_created deinit close_router Handle.deinit deinit_impl
    Workers.deinit stop broadcast turns turn step_if_any step_worker set_worker join all_exited
deinitialize = refl

server_deinitialize-Over_example : Over ec_success over_process
server_deinitialize-Over_example =
    server_deinitialize-Over running_process server_of_one (go 0 ∷ []) refl refl deinitialize
