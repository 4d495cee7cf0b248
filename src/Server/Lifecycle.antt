-- ===== src/Server/Lifecycle.antt =====
-- The life of the server: `create`, `init`, `deinit` and the destructor of `Application`
-- (sources/server/application.cpp), and the interface sources/ipc_server.cpp.
pub mod Laws
pub mod Stop
pub mod Tests
use inter_process_communicat.Base.{
  ℕ, ◌+◌, Bool, true, false, Option, none, some, List, [], Outcome, undefined, defined, ◌>>=◌, ltb,
  if◌then◌else◌,
}
use inter_process_communicat.Base.Int.{ℤ}
use inter_process_communicat.Protocol.{ec_success, ec_failure}
use inter_process_communicat.Errors.{is_success, handle_regular_error}
use inter_process_communicat.Runner.Workers.{Turn}
use inter_process_communicat.Runner.Handle
use inter_process_communicat.Runner.Handle.{AlgoRunner}
use inter_process_communicat.Server.{Application, Codec, Round, Frame}
use inter_process_communicat.Server.Loop
use inter_process_communicat.Server.Loop.{Ran}

-- The ROUTER socket.
pub data Router : Type 0 where
  unbound bound closed : Router

pub record Instance : Type 0 where
  pub app : Application
  pub threads : ℕ
  pub router : Router

-- The variables of the process: the static counter of `create`, `appPtr`, and `sigStop`.
pub record Process : Type 0 where
  pub instance_count : ℕ
  pub app_ptr : Option Instance
  pub sig_stop : Bool

-- The members of an `Application` before `init`; `counted` is the counter of tickets.
unfoldable pub new_application : ℕ → ℕ → Instance
new_application threads counted = record {
  app = record {
    client_exec_caps = [];
    algo_runner = record { impl = none; counted = counted };
    initialized = false;
  };
  threads = threads;
  router = unbound;
}

unfoldable pub create_if_none : Process → ℕ → ℕ → Option Instance → ℤ × Process
create_if_none p threads counted (some i) = (ec_failure, p)
create_if_none p threads counted none =
    (ec_success, record p { app_ptr = some (new_application threads counted) })

-- `Application::create`.
unfoldable pub create : Process → ℕ → ℕ → ℤ × Process
create p threads counted =
    if ltb 0 p.instance_count
    then (ec_failure, p)
    else create_if_none (record p { instance_count = p.instance_count + 1 }) threads counted
        p.app_ptr

-- `mRouter.bind`, where `bind_ok` is whether it throws no error.
unfoldable pub bind_router : Instance → AlgoRunner → Bool → ℤ × Instance
bind_router i h bind_ok =
    if bind_ok
    then (
      ec_success,
      record i { app = record i.app { algo_runner = h; initialized = true }; router = bound },
    )
    else (ec_failure, record i { app = record i.app { algo_runner = h } })

-- `Application::init`; `created` says which threads the system starts.
unfoldable pub init : Instance → (ℕ → Bool) → Bool → ℤ × Instance
init i created bind_ok =
    if i.app.initialized
    then (ec_failure, i)
    else (let (code, h) = Handle.init i.app.algo_runner i.threads created in
        if is_success code
        then bind_router i h bind_ok
        else (code, record i { app = record i.app { algo_runner = h } }))

unfoldable pub close_router : Instance → Option (ℤ × AlgoRunner) → Option (ℤ × Instance)
close_router i none = none
close_router i (some (code, h)) = some (
    if is_success code
    then (
      ec_success,
      record i { app = record i.app { algo_runner = h; initialized = false }; router = closed },
    )
    else (code, record i { app = record i.app { algo_runner = h } }))

-- `Application::deinit`; `none` where the joins of the runner do not return within the schedule.
unfoldable pub deinit : Instance → List Turn → Outcome (Option (ℤ × Instance))
deinit i schedule =
    if i.app.initialized
    then (Handle.deinit i.app.algo_runner schedule >>= λ o. defined (close_router i o))
    else defined (some (ec_failure, i))

abbrev pub destroyed : Option (ℤ × Instance) → Option Instance
destroyed none = none
destroyed (some (code, i)) = some i

-- `~Application`, at the end of the process.
unfoldable pub destroy : Instance → List Turn → Outcome (Option Instance)
destroy i schedule =
    if i.app.initialized
    then (deinit i schedule >>= λ o. defined (destroyed o))
    else defined (some i)

abbrev pub stored : Process → ℤ × Instance → ℤ × Process
stored p (code, i) = (handle_regular_error code, record p { app_ptr = some i })

-- The rest of `serverInitialize`, from `Application::get` on, which asserts that there is an instance.
unfoldable pub init_created : Process → (ℕ → Bool) → Bool → Option Instance → Outcome (ℤ × Process)
init_created p created bind_ok none = undefined
init_created p created bind_ok (some i) = defined (stored p (init i created bind_ok))

unfoldable pub server_initialize : Process → ℕ → ℕ → (ℕ → Bool) → Bool → Outcome (ℤ × Process)
server_initialize p threads counted created bind_ok =
    let (code, p') = create p threads counted in
    if is_success code then init_created p' created bind_ok p'.app_ptr else defined (code, p')

-- What `serverRun` returns, if the loop of the server does, and the frames that the socket took.
pub record Served : Type 0 where
  pub process : Process
  pub frames : List Frame
  pub code : Option ℤ

abbrev pub checked : Option ℤ → Option ℤ
checked none = none
checked (some code) = some (handle_regular_error code)

abbrev pub serve : Process → Instance → Ran → Served
serve p i y = record {
  process = record p { app_ptr = some (record i { app = y.app }) };
  frames = y.frames;
  code = checked y.code;
}

unfoldable pub run_created : Codec → Process → List Round → Option Instance → Outcome Served
run_created codec p rounds none = undefined
run_created codec p rounds (some i) = Loop.run codec i.app rounds >>= λ y. defined (serve p i y)

unfoldable pub server_run : Codec → Process → List Round → Outcome Served
server_run codec p rounds = run_created codec p rounds p.app_ptr

unfoldable pub stop_handle_server : Process → Process
stop_handle_server p = record p { sig_stop = true }

abbrev pub stored_if : Process → Option (ℤ × Instance) → Option (ℤ × Process)
stored_if p none = none
stored_if p (some (code, i)) = some (code, record p { app_ptr = some i })

unfoldable pub deinit_created :
    Process → List Turn → Option Instance → Outcome (Option (ℤ × Process))
deinit_created p schedule none = undefined
deinit_created p schedule (some i) = deinit i schedule >>= λ o. defined (stored_if p o)

unfoldable pub server_deinitialize : Process → List Turn → Outcome (Option (ℤ × Process))
server_deinitialize p schedule = deinit_created p schedule p.app_ptr
