-- ===== src/Logging.antt =====
-- `initializeLogging` and `deinitializeLogging` of sources/ipc.cpp. The logger is spdlog's; whether it
-- can be set up is an argument.
use inter_process_communicat.Base.{Bool, if◌then◌else◌}
use inter_process_communicat.Base.Int.{ℤ}
use inter_process_communicat.Protocol.{Bytes, ec_success, ec_failure}

-- The default logger of the process: spdlog's own, one that writes to the files of a path, or none
-- after the shutdown.
pub data Logger : Type 0 where
  console shut_down : Logger
  rotating : Bytes → Logger

-- `fails` says that spdlog throws, which is caught.
unfoldable pub initialize_logging : Bytes → Bool → Logger → ℤ × Logger
initialize_logging path fails logger =
    if fails then (ec_failure, logger) else (ec_success, rotating path)

unfoldable pub deinitialize_logging : Logger → ℤ × Logger
deinitialize_logging logger = (ec_success, shut_down)
