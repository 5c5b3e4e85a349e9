-- ===== src/Workers/Tests.antt =====
-- Runs of backend/core/workers.py, and each theorem about it at an input.
use graduationp.Prelude.{ℕ, true, false, [], ◌∷◌, none, some, elem, ◌≡◌, refl}
use graduationp.Workers.Watchdog.{
  register_worker, register_worker, Watchdog, heartbeat, check_workers,
}
use graduationp.Workers.Reachable.{
  register, step, empty, Reachable, start, next, WellFormed, Reachable-WellFormed, reported_once,
}

-- "scan" registered at 100 with the default threshold, "net" at 110 with its own
abbrev busy : Watchdog
busy = step (register 110 "net" (some 120)) (step (register 100 "scan" none) empty)

busy-Reachable : Reachable busy
busy-Reachable =
    next (register 110 "net" (some 120)) (step (register 100 "scan" none) empty)
      (next (register 100 "scan" none) empty start)

scan_reported : (check_workers 120 busy).1 ≡ "scan" ∷ []
unfolding check_workers step register_worker
scan_reported = refl

is_reported : elem "scan" (check_workers 120 busy).1 ≡ true
unfolding elem check_workers step register_worker
is_reported = refl

abbrev seven : ℕ
seven = 7

Reachable-WellFormed_example : WellFormed busy
Reachable-WellFormed_example = Reachable-WellFormed busy busy-Reachable

reported_once_example :
    (elem "scan" (check_workers 200 (check_workers 120 busy).0).1 ≡ false)
    × (elem "scan" (check_workers 200 (heartbeat 121 "scan" (check_workers 120 busy).0)).1 ≡ false)
reported_once_example = reported_once 120 200 121 busy "scan" busy-Reachable is_reported
