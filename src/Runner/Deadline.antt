-- ===== src/Runner/Deadline.antt =====
-- The deadline of a timed wait.
use inter_process_communicat.Base.{ℕ, ◌+◌, ◌*◌, ◌<◌, ◌≡◌, arith}
use inter_process_communicat.Runner.Get.{Timespec, add_ms_to_timespec}

abbrev pub nanoseconds : Timespec → ℕ
nanoseconds ts = ts.tv_sec * 1_000_000_000 + ts.tv_nsec

-- The deadline is exactly the given number of milliseconds after the clock, and its nanoseconds are
-- below one second, as pthread_cond_timedwait demands, whatever the clock's are.
pub add_ms_to_timespec-exact :
    (ts : Timespec) (ms : ℕ)
    → (nanoseconds (add_ms_to_timespec ts ms) ≡ nanoseconds ts + ms * 1_000_000)
      × ((add_ms_to_timespec ts ms).tv_nsec < 1_000_000_000)
unfolding add_ms_to_timespec
add_ms_to_timespec-exact ts ms = (omega arith, omega arith)
