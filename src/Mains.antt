-- ===== src/Mains.antt =====
-- The main programs sources/server.cpp, sources/client_1.cpp and sources/client_2.cpp. What cxxopts
-- reads from the command line is an argument.
pub mod ServerMain
pub mod ClientMain
pub mod Grants
pub mod Exits
pub mod Tests
use inter_process_communicat.Base.{[], ◌∷◌, ◌++◌}
use inter_process_communicat.Base.Text.{codes}
use inter_process_communicat.Protocol.{Bytes}

-- The path of the log, in the directory that the command line names.
unfoldable pub log_path : Bytes → Bytes → Bytes
log_path default [] = default
log_path default (c ∷ dir) = (c ∷ dir) ++ codes "/log.txt"
