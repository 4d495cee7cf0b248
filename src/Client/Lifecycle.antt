-- ===== src/Client/Lifecycle.antt =====
-- `create`, `init` and `deinit` of the client's `Application` (sources/client/application.cpp), and
-- `clientInitialize`, `clientDeinitialize` and the signal handler of sources/ipc_clients.cpp.
use inter_process_communicat.Base.{
  ℕ, ◌+◌, Bool, true, false, Option, none, some, [], Outcome, undefined, defined, ltb,
  if◌then◌else◌,
}
use inter_process_communicat.Base.Int.{ℤ}
use inter_process_communicat.Protocol.{Bytes, ec_success, ec_failure}
use inter_process_communicat.Caps.{verify_exec_caps}
use inter_process_communicat.Errors.{is_success, handle_regular_error}
use inter_process_communicat.Server.{
  Exception, zmq_error, std_exception, unknown_exception, SendResult,
}
use inter_process_communicat.Client.{Client, ClientCodec, Socket, Call, returned, thrown}
use inter_process_communicat.Client.Transport.{send_first_handshake}

pub record Connection : Type 0 where
  pub client : Client
  pub socket : Socket
  pub closed : Bool

-- The static counter of `create`, `appPtr`, and `sigStop`.
pub record ClientProcess : Type 0 where
  pub instance_count : ℕ
  pub app_ptr : Option Connection
  pub sig_stop : Bool

-- The constructor; `identity` is what `random_identity` drew.
unfoldable pub new_connection : Bytes → ℕ → Connection
new_connection identity flags = record {
  client = record { identity = identity; exec_fun_flags = flags };
  socket = record { inbox = []; outbox = [] };
  closed = false;
}

unfoldable pub create_if_none : ClientProcess → Bytes → ℕ → Option Connection → ℤ × ClientProcess
create_if_none p identity flags (some c) = (ec_failure, p)
create_if_none p identity flags none =
    (ec_success, record p { app_ptr = some (new_connection identity flags) })

-- `Application::create`.
unfoldable pub create : ClientProcess → Bytes → ℕ → ℤ × ClientProcess
create p identity flags =
    if ltb 0 p.instance_count
    then (ec_failure, p)
    else create_if_none (record p { instance_count = p.instance_count + 1 }) identity flags
        p.app_ptr

-- The handler of zmq::error_t.
unfoldable pub caught : Call Unit → Call Unit
caught (thrown (zmq_error n) s) = returned ec_failure s tt
caught (thrown std_exception s) = thrown std_exception s
caught (thrown unknown_exception s) = thrown unknown_exception s
caught (returned code s _) = returned code s tt

-- How `clientInitialize` ends.
pub data Began : Type 0 where
  began : ℤ → ClientProcess → Began
  aborted : Exception → ClientProcess → Began

abbrev pub kept : ClientProcess → Connection → Call Unit → Began
kept p c (returned code s _) =
    began (handle_regular_error code) (record p { app_ptr = some (record c { socket = s }) })
kept p c (thrown e s) = aborted e (record p { app_ptr = some (record c { socket = s }) })

module _ (codec : ClientCodec) where
  -- The block under `try`; `connecting` is what the options and the connect throw.
  unfoldable pub connect_and_greet : Connection → Option Exception → SendResult → Call Unit
  connect_and_greet c (some e) how = thrown e c.socket
  connect_and_greet c none how = send_first_handshake codec c.client how c.socket

  -- `Application::init`.
  unfoldable pub init : Connection → Option Exception → SendResult → Call Unit
  init c connecting how = caught (connect_and_greet c connecting how)

  unfoldable pub init_created :
      ClientProcess → Option Exception → SendResult → Option Connection → Outcome Began
  init_created p connecting how none = undefined
  init_created p connecting how (some c) = defined (kept p c (init c connecting how))

  unfoldable pub client_initialize :
      ClientProcess → Bytes → ℕ → Option Exception → SendResult → Outcome Began
  client_initialize p identity flags connecting how =
      if verify_exec_caps flags
      then (let (code, p') = create p identity flags in
          if is_success code
          then init_created p' connecting how p'.app_ptr
          else defined (began code p'))
      else defined (began ec_failure p)

-- `Application::deinit`.
unfoldable pub deinit : Connection → ℤ × Connection
deinit c = (ec_success, record c { closed = true })

abbrev pub deinit_stored : ClientProcess → ℤ × Connection → ℤ × ClientProcess
deinit_stored p (code, c) = (code, record p { app_ptr = some c })

unfoldable pub deinit_created : ClientProcess → Option Connection → Outcome (ℤ × ClientProcess)
deinit_created p none = undefined
deinit_created p (some c) = defined (deinit_stored p (deinit c))

unfoldable pub client_deinitialize : ClientProcess → Outcome (ℤ × ClientProcess)
client_deinitialize p = deinit_created p p.app_ptr

unfoldable pub stop_handle_client : ClientProcess → ClientProcess
stop_handle_client p = record p { sig_stop = true }
