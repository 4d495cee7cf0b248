-- ===== src/Mains/ServerMain.antt =====
-- `main` of sources/server.cpp.
use inter_process_communicat.Base.{
  ℕ, Bool, Option, none, some, List, Outcome, defined, ◌>>=◌, if◌then◌else◌,
}
use inter_process_communicat.Base.Int.{ℤ, pos}
use inter_process_communicat.Base.Text.{codes}
use inter_process_communicat.Protocol.{Bytes}
use inter_process_communicat.Errors.{is_success}
use inter_process_communicat.Logging.{Logger, initialize_logging, deinitialize_logging}
use inter_process_communicat.Runner.Workers.{Turn}
use inter_process_communicat.Server.{Codec, Round}
use inter_process_communicat.Server.Lifecycle.{
  Process, server_initialize, server_run, server_deinitialize,
}
use inter_process_communicat.Mains.{log_path}

-- The options, of which the port only goes into the address of the socket.
pub record ServerOptions : Type 0 where
  pub help : Bool
  pub logging : Bytes
  pub threads : ℕ

-- What the program meets: spdlog, the counter of tickets, which threads the system starts, whether the
-- bind succeeds, the rounds of the loop, and what the workers do while they are joined.
pub record ServerRun : Type 0 where
  pub logging_fails : Bool
  pub counted : ℕ
  pub created : ℕ → Bool
  pub bind_ok : Bool
  pub rounds : List Round
  pub schedule : List Turn

-- The end of the program: its exit code, and what it leaves.
pub record ServerExit : Type 0 where
  pub code : ℤ
  pub process : Process
  pub logger : Logger

-- The end, after `serverDeinitialize`, whose code is only logged.
unfoldable pub finish : Logger → Option (ℤ × Process) → Option ServerExit
finish logger none = none
finish logger (some (code, p)) =
    let (code', logger') = deinitialize_logging logger in
    some (record { code = code'; process = p; logger = logger' })

unfoldable pub close_server : ServerRun → Logger → Process → Outcome (Option ServerExit)
close_server env logger p = server_deinitialize p env.schedule >>= λ o. defined (finish logger o)

-- After `serverRun`, whose code is only logged.
unfoldable pub after_run : ServerRun → Logger → Option ℤ → Process → Outcome (Option ServerExit)
after_run env logger none p = defined none
after_run env logger (some code) p = close_server env logger p

module _ (codec : Codec) where
  -- From `serverInitialize` on.
  unfoldable pub serve_all :
      ServerOptions → ServerRun → Logger → Process → Outcome (Option ServerExit)
  serve_all options env logger p =
      server_initialize p options.threads env.counted env.created env.bind_ok >>= λ (code, q).
      if is_success code
      then (server_run codec q env.rounds >>= λ v. after_run env logger v.code v.process)
      else close_server env logger q

  -- `main`; `none` where the loop of the server or its shutdown has not ended yet.
  unfoldable pub server_main :
      ServerOptions → ServerRun → Logger → Process → Outcome (Option ServerExit)
  server_main options env logger p =
      let path = log_path (codes "./log/log.txt") options.logging in
      let (code, logger') = initialize_logging path env.logging_fails logger in
      if options.help
      then defined (some (record { code = pos 0; process = p; logger = logger }))
      else if is_success code
      then serve_all options env logger' p
      else defined (some (record { code = code; process = p; logger = logger' }))
