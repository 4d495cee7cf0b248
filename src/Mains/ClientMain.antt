-- ===== src/Mains/ClientMain.antt =====
-- `main` of sources/client_1.cpp and of sources/client_2.cpp.
use inter_process_communicat.Base.{
  ℕ, Bool, true, false, not, Option, none, some, List, [], ◌∷◌, option_map, Outcome, defined, ◌>>=◌,
  bit_or, if◌then◌else◌,
}
use inter_process_communicat.Base.Int.{ℤ, pos}
use inter_process_communicat.Base.Text.{codes}
use inter_process_communicat.Protocol.{Bytes, ec_failure}
use inter_process_communicat.Errors.{is_success}
use inter_process_communicat.Caps.ExecFunFlags
use inter_process_communicat.Logging.{Logger, initialize_logging, deinitialize_logging}
use inter_process_communicat.Server.{Exception, SendResult}
use inter_process_communicat.Client.{ClientCodec, Socket}
use inter_process_communicat.Client.Lifecycle.{
  Connection, ClientProcess, Began, began, aborted, client_initialize, client_deinitialize,
}
use inter_process_communicat.Client.Scan.{c_string}
use inter_process_communicat.Client.Session.{Prompt}
use inter_process_communicat.Client.Loop.{Ending, exits, uncaught, client_start}
use inter_process_communicat.Mains.{log_path}

-- The options, of which the port only goes into the address of the socket.
pub record ClientOptions : Type 0 where
  pub help : Bool
  pub logging : Bytes
  pub address : Bytes

-- What the program meets: spdlog, the random identity, what the connect throws, the send of the
-- handshake, the prompts, and the standard input.
pub record ClientRun : Type 0 where
  pub logging_fails : Bool
  pub identity : Bytes
  pub connecting : Option Exception
  pub greeting : SendResult
  pub prompts : List Prompt
  pub input : Bytes

-- The end of the program: its exit code, or the exception that ends it, and what it leaves.
pub record ClientExit : Type 0 where
  pub ending : Ending
  pub process : ClientProcess
  pub logger : Logger

abbrev pub exit : ℤ → Logger → ClientProcess → Outcome (Option ClientExit)
exit code logger p = defined (some (record { ending = exits code; process = p; logger = logger }))

-- The end, after `clientDeinitialize`, whose code is only logged.
unfoldable pub shut : Logger → ℤ × ClientProcess → Outcome (Option ClientExit)
shut logger (code, p) = let (code', logger') = deinitialize_logging logger in exit code' logger' p

unfoldable pub close_client : Logger → ClientProcess → Outcome (Option ClientExit)
close_client logger p = client_deinitialize p >>= λ x. shut logger x

abbrev pub with_socket : Socket → ClientProcess → ClientProcess
with_socket s p = record p {
  app_ptr = option_map (λ (c : Connection). record c { socket = s }) p.app_ptr;
}

-- After `clientStart`, whose code is only logged.
unfoldable pub after_start : Logger → ClientProcess → Option Ending → Outcome (Option ClientExit)
after_start logger p none = defined none
after_start logger p (some (exits code)) = close_client logger p
after_start logger p (some (uncaught e)) =
    defined (some (record { ending = uncaught e; process = p; logger = logger }))

module _ (codec : ClientCodec) where
  unfoldable pub start : ClientRun → Logger → ClientProcess → Outcome (Option ClientExit)
  start env logger p =
      client_start codec env.prompts env.input (option_map (λ (c : Connection). c.socket) p.app_ptr)
      >>= λ r. after_start logger (with_socket r.session.socket p) r.ending

  -- After `clientInitialize`.
  unfoldable pub after_initialize : ClientRun → Logger → Began → Outcome (Option ClientExit)
  after_initialize env logger (began code p) =
      if is_success code then start env logger p else close_client logger p
  after_initialize env logger (aborted e p) =
      defined (some (record { ending = uncaught e; process = p; logger = logger }))

  -- From `clientInitialize` on, where the two programs differ in the mask only.
  unfoldable pub serve_user : ℕ → ClientRun → Logger → ClientProcess → Outcome (Option ClientExit)
  serve_user mask env logger p =
      client_initialize codec p env.identity mask env.connecting env.greeting >>= λ b.
      after_initialize env logger b

-- `execFunc` of the two programs.
abbrev pub client_1_flags : ℕ
client_1_flags = bit_or ExecFunFlags.add (bit_or ExecFunFlags.mult ExecFunFlags.concat)

abbrev pub client_2_flags : ℕ
client_2_flags = bit_or ExecFunFlags.sub (bit_or ExecFunFlags.div ExecFunFlags.find_start)

abbrev pub is_empty : Bytes → Bool
is_empty [] = true
is_empty (c ∷ s) = false

module _ (codec : ClientCodec) where
  -- `main` of client_1.cpp; `none` where the loop of the client has not ended yet.
  unfoldable pub client_1_main :
      ClientOptions → ClientRun → Logger → ClientProcess → Outcome (Option ClientExit)
  client_1_main options env logger p =
      let path = log_path (codes "./client_log_1/log.txt") options.logging in
      let (code, logger') = initialize_logging path env.logging_fails logger in
      if options.help
      then exit (pos 0) logger p
      else if not (is_success code)
      then (let (_, shut) = deinitialize_logging logger' in exit code shut p)
      else if is_empty (c_string options.address)
      then exit ec_failure logger' p
      else serve_user codec client_1_flags env logger' p

-- The names that `mustSym` looks up.
abbrev pub symbols : List Bytes
symbols =
    codes "clientInitialize"
    ∷ codes "clientStart"
    ∷ codes "clientDeinitialize"
    ∷ codes "stopHandleClient"
    ∷ codes "initializeLogging"
    ∷ codes "deinitializeLogging"
    ∷ []

unfoldable pub all_found : (Bytes → Bool) → List Bytes → Bool
all_found found [] = true
all_found found (s ∷ ss) = let rest = all_found found ss in if found s then rest else false

-- What the shared object does: whether it exists, whether it can be loaded, and its symbols.
pub record SharedObject : Type 0 where
  pub exists : Bool
  pub loads : Bool
  pub found : Bytes → Bool

module _ (codec : ClientCodec) where
  -- `main` of client_2.cpp, up to the loading of the shared object, and from there.
  unfoldable pub client_2_loaded :
      ClientOptions → ClientRun → Logger → ClientProcess → Outcome (Option ClientExit)
  client_2_loaded options env logger p =
      let path = log_path (codes "./client_log_2/log.txt") options.logging in
      let (code, logger') = initialize_logging path env.logging_fails logger in
      if not (is_success code)
      then exit code logger' p
      else if is_empty (c_string options.address)
      then (let (_, shut) = deinitialize_logging logger' in exit ec_failure shut p)
      else serve_user codec client_2_flags env logger' p

  unfoldable pub client_2_main :
      ClientOptions
      → SharedObject
      → ClientRun
      → Logger
      → ClientProcess
      → Outcome (Option ClientExit)
  client_2_main options object env logger p =
      if options.help
      then exit (pos 0) logger p
      else if not object.exists
      then exit ec_failure logger p
      else if not object.loads
      then exit ec_failure logger p
      else if not (all_found object.found symbols)
      then exit (pos 1) logger p
      else client_2_loaded options env logger p
