-- ===== src/System/GetTests.antt =====
-- A product that is asked for without waiting, and its `get`.
use inter_process_communicat.Base.{◌≡◌, refl, none, some, [], ◌∷◌, true, false}
use inter_process_communicat.Base.Eq.{bytes_eq}
use inter_process_communicat.Base.Dict.{find}
use inter_process_communicat.Runner.Tests.{one_wait}
use inter_process_communicat.Runner.{Runner}
use inter_process_communicat.Server.{Application, sent, message, Round}
use inter_process_communicat.Client.{Socket, Exchange}

abbrev pub server_with : Runner → Application
server_with r = record {
  client_exec_caps = ((1 ∷ []), 63) ∷ [];
  algo_runner = record { impl = some r; counted = 0 };
  initialized = true;
}

pub known : (r : Runner) → find (1 ∷ []) (server_with r).client_exec_caps ≡ some 63
unfolding find
known r = refl

abbrev pub round : Round
round = record {
  sig_stop = false;
  others = [];
  received = message (1 ∷ []) ((6 ∷ 7 ∷ []) ∷ []);
  first_send = sent;
  second_send = sent;
  env = record { now = 1000; pick = 0; waiting = one_wait };
}

abbrev pub exchange : Exchange
exchange = record { sending = sent; arrivals = ((65_536_000 ∷ []) ∷ []) ∷ []; interrupted = none }

abbrev pub idle : Socket
idle = record { inbox = []; outbox = [] }
