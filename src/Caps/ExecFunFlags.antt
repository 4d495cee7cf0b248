-- ===== src/Caps/ExecFunFlags.antt =====
-- `enum ExecFunFlags` of includes/ipc.h.
use inter_process_communicat.Base.{ℕ}

abbrev pub add : ℕ
add = 1

abbrev pub sub : ℕ
sub = 2

abbrev pub mult : ℕ
mult = 4

abbrev pub div : ℕ
div = 8

abbrev pub concat : ℕ
concat = 16

abbrev pub find_start : ℕ
find_start = 32
