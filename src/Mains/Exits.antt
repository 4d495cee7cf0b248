-- ===== src/Mains/Exits.antt =====
-- How the main programs end.
use inter_process_communicat.Base.{
  ◌≡◌, refl, ℕ, true, ◌⊎◌, inl, inr, false, Bool-cases, Option, none, some, defined, >>=-eq-defined,
  transfer_some,
}
use inter_process_communicat.Protocol.{ec_success}
use inter_process_communicat.Errors.{is_success}
use inter_process_communicat.Logging.{Logger, shut_down, initialize_logging, deinitialize_logging}
use inter_process_communicat.Server.{Exception, Codec}
use inter_process_communicat.Server.Lifecycle.{Process, Instance}
use inter_process_communicat.Server.Lifecycle.Laws.{Started, server_initialize-bind_fails}
use inter_process_communicat.Client.{ClientCodec}
use inter_process_communicat.Client.Lifecycle.{
  ClientProcess, Began, began, aborted, client_initialize, client_deinitialize,
}
use inter_process_communicat.Client.Scan.{c_string}
use inter_process_communicat.Client.Loop.{Ending, exits, uncaught, client_start}
use inter_process_communicat.Mains.ServerMain.{
  ServerOptions, ServerRun, finish, close_server, serve_all, server_main,
}
use inter_process_communicat.Mains.ClientMain.{
  ClientOptions, ClientRun, ClientExit, shut, close_client, after_start, start, after_initialize,
  serve_user, client_1_flags, client_2_flags, is_empty, client_1_main, SharedObject, all_found,
  symbols, client_2_main, client_2_loaded,
}

-- The program ends with the exit code EC_SUCCESS and without a logger, or by an exception.
abbrev pub EndsWell : ClientExit → Type 0
EndsWell x =
    ((x.ending ≡ exits ec_success) × (x.logger ≡ shut_down))
    ⊎ ((e : Exception) × (x.ending ≡ uncaught e))

close_client-EndsWell :
    (logger : Logger) (p : ClientProcess) (x : ClientExit)
    → close_client logger p ≡ defined (some x)
    → EndsWell x
unfolding close_client shut deinitialize_logging
close_client-EndsWell logger p x h =
    let ((code, q), closed, last) = >>=-eq-defined (client_deinitialize p) _ h in
    transfer_some EndsWell last (inl (refl, refl))

after_start-EndsWell :
    (logger : Logger) (p : ClientProcess) (ending : Option Ending) (x : ClientExit)
    → after_start logger p ending ≡ defined (some x)
    → EndsWell x
unfolding after_start
after_start-EndsWell logger p none x h = absurd (cc)
after_start-EndsWell logger p (some (exits code)) x h = close_client-EndsWell logger p x h
after_start-EndsWell logger p (some (uncaught e)) x h = transfer_some EndsWell h (inr (e, refl))

module _ (codec : ClientCodec) where
  after_initialize-EndsWell :
      (env : ClientRun) (logger : Logger) (b : Began) (x : ClientExit)
      → after_initialize codec env logger b ≡ defined (some x)
      → EndsWell x
  unfolding after_initialize start
  after_initialize-EndsWell env logger (aborted e p) x h = transfer_some EndsWell h (inr (e, refl))
  after_initialize-EndsWell env logger (began code p) x h = elim (Bool-cases (is_success code)) [
    | inl ok ↦
        let (r, ran, last) =
          >>=-eq-defined (client_start codec env.prompts env.input _) _ (rw ok at h) in
        after_start-EndsWell logger _ r.ending x last
    | inr failed ↦ close_client-EndsWell logger p x (rw failed at h)
  ]

  serve_user-EndsWell :
      (mask : ℕ) (env : ClientRun) (logger : Logger) (p : ClientProcess) (x : ClientExit)
      → serve_user codec mask env logger p ≡ defined (some x)
      → EndsWell x
  unfolding serve_user
  serve_user-EndsWell mask env logger p x h =
      let (b, begins, last) =
        >>=-eq-defined (client_initialize codec p env.identity mask env.connecting env.greeting) _
          h in
      after_initialize-EndsWell env logger b x last

  -- If help is not asked for, the log is set up and an address is given, then client 1, if it ends, ends
  -- with the exit code EC_SUCCESS and without a logger, or by an exception: a failure of
  -- `clientInitialize`, such as an address that cannot be connected, or of `clientStart`, such as a
  -- request that is not answered, does not show in its exit code.
  pub client_1_main-EndsWell :
      (options : ClientOptions) (env : ClientRun) (logger : Logger) (p : ClientProcess)
      (x : ClientExit)
      → options.help ≡ false
      → env.logging_fails ≡ false
      → is_empty (c_string options.address) ≡ false
      → client_1_main codec options env logger p ≡ defined (some x)
      → EndsWell x
  unfolding client_1_main initialize_logging
  client_1_main-EndsWell options env logger p x no_help logs given h =
      serve_user-EndsWell client_1_flags env _ p x (simp (no_help, logs, given) at h)

  -- If help is not asked for, the shared object exists, is loaded and has the symbols that client 2 looks
  -- up, the log is set up and an address is given, then client 2, if it ends, ends with the exit code
  -- EC_SUCCESS and without a logger, or by an exception: a failure of `clientInitialize` or of
  -- `clientStart` does not show in its exit code.
  pub client_2_main-EndsWell :
      (options : ClientOptions) (object : SharedObject) (env : ClientRun) (logger : Logger)
      (p : ClientProcess) (x : ClientExit)
      → options.help ≡ false
      → object.exists ≡ true
      → object.loads ≡ true
      → all_found object.found symbols ≡ true
      → env.logging_fails ≡ false
      → is_empty (c_string options.address) ≡ false
      → client_2_main codec options object env logger p ≡ defined (some x)
      → EndsWell x
  unfolding client_2_main client_2_loaded initialize_logging
  client_2_main-EndsWell options object env logger p x no_help exists loads found logs given h =
      serve_user-EndsWell client_2_flags env _ p x
        (simp (no_help, exists, loads, found, logs, given) at h)

-- If the log of a server is set up, and its bind fails, such as at a port that is in use, then the
-- program ends with the exit code EC_SUCCESS, and with its pool still running as it was started.
pub server_main-bind_fails :
    (codec : Codec) (options : ServerOptions) (env : ServerRun) (logger : Logger) (p : Process)
    → options.help ≡ false
    → env.logging_fails ≡ false
    → env.bind_ok ≡ false
    → p.instance_count ≡ 0
    → p.app_ptr ≡ none
    → (q : Process) × (i : Instance) × (server_main codec options env logger p
        ≡ defined (some (record { code = ec_success; process = q; logger = shut_down })))
      × (q.app_ptr ≡ some i)
      × Started env.counted options.threads env.created i
unfolding server_main serve_all initialize_logging close_server finish deinitialize_logging
server_main-bind_fails codec options env logger p no_help logs unbound fresh absent =
    let (q, i, begins, holds, off, runs, refused) =
      server_initialize-bind_fails p options.threads env.counted env.created env.schedule fresh
        absent in
    (q, i, simp (no_help, logs, unbound, begins, refused) refl, holds, runs)
