-- ===== src/Workers/Watchdog.antt =====
-- `WorkerWatchdog` of backend/core/workers.py. Times and thresholds are whole numbers of one unit;
-- a clock that was set back counts as no time elapsed.
use graduationp.Prelude.{
  ℕ, ◌-◌, Bool, String, List, [], ◌∷◌, Option, none, some, ltb, if◌then◌else◌,
}
use graduationp.Prelude.Dict.{Dict, lookup, insert, remove, has_key}

-- `_workers`, the last sign of life of each worker, and `_worker_thresholds`.
pub record Watchdog : Type 0 where
  pub workers : Dict ℕ
  pub thresholds : Dict ℕ

abbrev default_stale_threshold : ℕ
default_stale_threshold = 15

abbrev pub or_default : Option ℕ → ℕ
or_default none = default_stale_threshold
or_default (some n) = n

unfoldable pub register_worker : ℕ → String → Option ℕ → Watchdog → Watchdog
unfolding insert
register_worker now id stale_threshold w = record {
  workers = insert id now w.workers;
  thresholds = insert id (or_default stale_threshold) w.thresholds;
}

unfoldable pub heartbeat : ℕ → String → Watchdog → Watchdog
unfolding has_key insert
heartbeat now id w =
    if has_key id w.workers then record w { workers = insert id now w.workers } else w

unfoldable pub unregister_worker : String → Watchdog → Watchdog
unfolding remove
unregister_worker id w = record {
  workers = remove id w.workers;
  thresholds = remove id w.thresholds;
}

-- the threshold of a worker
unfoldable pub threshold_of : String → Watchdog → ℕ
unfolding lookup
threshold_of id w = or_default (lookup id w.thresholds)

unfoldable pub is_stale : ℕ → Watchdog → String → ℕ → Bool
unfolding threshold_of
is_stale now w id last = ltb (threshold_of id w) (now - last)

-- the first loop of `_check_workers`
unfoldable pub stalled_among : ℕ → Watchdog → Dict ℕ → List String
unfolding is_stale
stalled_among now w [] = []
stalled_among now w ((id, last) ∷ rest) =
    let others = stalled_among now w rest in if is_stale now w id last then id ∷ others else others

-- the second loop
unfoldable pub unregister_all : List String → Watchdog → Watchdog
unfolding unregister_worker
unregister_all [] w = w
unregister_all (id ∷ ids) w = unregister_all ids (unregister_worker id w)

-- `_check_workers`: the watchdog afterwards, and the workers that were reported.
unfoldable pub check_workers : ℕ → Watchdog → Watchdog × List String
unfolding stalled_among unregister_all
check_workers now w =
    let stalled = stalled_among now w w.workers in (unregister_all stalled w, stalled)
