-- ===== src/Runner/Liveness/Schedules.antt =====
-- Three rounds of one worker, for the tests.
use inter_process_communicat.Base.{ℕ, zero, suc, ◌≤◌, ◌<◌, refl, arith, List, [], ◌∷◌}
use inter_process_communicat.Runner.Workers.{Turn, go}
use inter_process_communicat.Runner.Pull.{gos}
use inter_process_communicat.Runner.Rounds.{Rounds}

abbrev pub three_turns : List Turn
three_turns = go 0 ∷ go 0 ∷ go 0 ∷ []

one_go : (w : ℕ) → w < 1 → 1 ≤ gos w (go 0 ∷ [])
one_go zero h = omega arith
one_go (suc w) h = absurd (omega arith)

pub three_turns-Rounds : Rounds 1 3 three_turns
three_turns-Rounds = (
  go 0 ∷ [],
  go 0 ∷ go 0 ∷ [],
  refl,
  one_go,
  (go 0 ∷ [], go 0 ∷ [], refl, one_go, (go 0 ∷ [], [], refl, one_go, tt)),
)
