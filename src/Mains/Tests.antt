-- ===== src/Mains/Tests.antt =====
-- A client that cannot connect, and a server that cannot bind.
use inter_process_communicat.Base.{◌≡◌, refl, none, some, [], ◌∷◌, defined, true, false}
use inter_process_communicat.Base.Text.{codes}
use inter_process_communicat.Protocol.{ec_success}
use inter_process_communicat.Errors.{handle_regular_error}
use inter_process_communicat.Caps.{verify_exec_caps}
use inter_process_communicat.Logging.{console, shut_down, initialize_logging, deinitialize_logging}
use inter_process_communicat.Server.{zmq_error, sent, Codec}
use inter_process_communicat.Server.Lifecycle.{Process, Instance}
use inter_process_communicat.Server.Lifecycle.Laws.{Started}
use inter_process_communicat.Client.{ClientCodec}
use inter_process_communicat.Client.Lifecycle.{
  ClientProcess, new_connection, create_if_none, create, caught, connect_and_greet, init,
  init_created, client_initialize, deinit, deinit_created, client_deinitialize,
}
use inter_process_communicat.Client.Scan.{c_string}
use inter_process_communicat.Client.Loop.{exits}
use inter_process_communicat.Mains.{log_path}
use inter_process_communicat.Mains.ServerMain.{ServerOptions, ServerRun, server_main}
use inter_process_communicat.Mains.ClientMain.{
  ClientOptions, ClientRun, ClientExit, shut, close_client, after_initialize, serve_user,
  client_1_flags, is_empty, client_1_main, client_2_flags, symbols, all_found, SharedObject,
  client_2_loaded, client_2_main,
}
use inter_process_communicat.Mains.Exits.{
  EndsWell, client_1_main-EndsWell, client_2_main-EndsWell, server_main-bind_fails,
}

abbrev silent : ClientCodec
silent = record {
  serialize_handshake = λ h. none;
  serialize_request = λ m. none;
  parse_response = λ b. none;
}

abbrev at_home : ClientOptions
at_home = record { help = false; logging = []; address = codes "home" }

abbrev no_connection : ClientRun
no_connection = record {
  logging_fails = false;
  identity = 5 ∷ [];
  connecting = some (zmq_error 111);
  greeting = sent;
  prompts = [];
  input = [];
}

abbrev fresh_client : ClientProcess
fresh_client = record { instance_count = 0; app_ptr = none; sig_stop = false }

abbrev unconnected : ClientExit
unconnected = record {
  ending = exits ec_success;
  process = record {
    instance_count = 1;
    app_ptr = some (record (new_connection (5 ∷ []) client_1_flags) { closed = true });
    sig_stop = false;
  };
  logger = shut_down;
}

home_given : is_empty (c_string at_home.address) ≡ false
unfolding c_string
home_given = refl

gives_up :
    client_1_main silent at_home no_connection console fresh_client ≡ defined (some unconnected)
unfolding client_1_main log_path initialize_logging c_string serve_user client_initialize
    verify_exec_caps create create_if_none new_connection init_created init connect_and_greet caught
    handle_regular_error after_initialize close_client client_deinitialize deinit_created deinit
    shut deinitialize_logging
gives_up = refl

client_1_main-EndsWell_example : EndsWell unconnected
client_1_main-EndsWell_example =
    client_1_main-EndsWell silent at_home no_connection console fresh_client unconnected refl refl
      home_given gives_up

abbrev library : SharedObject
library = record { exists = true; loads = true; found = λ name. true }

abbrev unconnected_2 : ClientExit
unconnected_2 = record unconnected {
  process = record {
    instance_count = 1;
    app_ptr = some (record (new_connection (5 ∷ []) client_2_flags) { closed = true });
    sig_stop = false;
  };
}

library_complete : all_found library.found symbols ≡ true
unfolding all_found
library_complete = refl

gives_up_2 :
    client_2_main silent at_home library no_connection console fresh_client
    ≡ defined (some unconnected_2)
unfolding client_2_main client_2_loaded all_found log_path initialize_logging c_string serve_user
    client_initialize verify_exec_caps create create_if_none new_connection init_created init
    connect_and_greet caught handle_regular_error after_initialize close_client client_deinitialize
    deinit_created deinit shut deinitialize_logging
gives_up_2 = refl

client_2_main-EndsWell_example : EndsWell unconnected_2
client_2_main-EndsWell_example =
    client_2_main-EndsWell silent at_home library no_connection console fresh_client unconnected_2
      refl refl refl library_complete refl home_given gives_up_2

abbrev deaf : Codec
deaf = record {
  parse_handshake = λ b. none;
  parse_request = λ b. none;
  serialize_response = λ m. none;
}

abbrev four_threads : ServerOptions
four_threads = record { help = false; logging = codes "log"; threads = 4 }

abbrev no_bind : ServerRun
no_bind = record {
  logging_fails = false;
  counted = 0;
  created = λ i. true;
  bind_ok = false;
  rounds = [];
  schedule = [];
}

abbrev fresh_server : Process
fresh_server = record { instance_count = 0; app_ptr = none; sig_stop = false }

server_main-bind_fails_example :
    (q : Process) × (i : Instance) × (server_main deaf four_threads no_bind console fresh_server
      ≡ defined (some (record { code = ec_success; process = q; logger = shut_down })))
    × (q.app_ptr ≡ some i)
    × Started 0 4 no_bind.created i
server_main-bind_fails_example =
    server_main-bind_fails deaf four_threads no_bind console fresh_server refl refl refl refl refl
