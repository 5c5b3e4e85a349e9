-- ===== src/Workers/Reachable.antt =====
-- What holds of the watchdog of backend/core/workers.py after any sequence of calls.
use graduationp.Prelude.{
  if_cases_true, ℕ, true, false, String, List, [], ◌∷◌, Option, none, elem, ◌≡◌, refl, arith,
  eq_iff, ◌∙◌,
}
use graduationp.Prelude.Dict.{
  Distinct, insert-Distinct, remove-Distinct, has_key-insert, has_key-remove, lookup, has_key,
}
use graduationp.Workers.Watchdog.{
  or_default, Watchdog, register_worker, heartbeat, unregister_worker, stalled_among,
  unregister_all, check_workers,
}
use graduationp.Workers.Stalled.{reported_iff_stale}

-- A call on the watchdog, with the time at which it reads the clock.
pub data Call : Type 0 where
  register : ℕ → String → Option ℕ → Call
  beat : ℕ → String → Call
  unregister : String → Call
  check : ℕ → Call

unfoldable pub step : Call → Watchdog → Watchdog
step (register now id stale_threshold) w = register_worker now id stale_threshold w
step (beat now id) w = heartbeat now id w
step (unregister id) w = unregister_worker id w
step (check now) w = (check_workers now w).0

abbrev pub empty : Watchdog
empty = record { workers = []; thresholds = [] }

-- The states that calls lead to.
pub data Reachable : Watchdog → Type 0 where
  start : Reachable empty
  next : (c : Call) (w : Watchdog) → Reachable w → Reachable (step c w)

-- Each worker is registered once, and has a threshold exactly when it is registered.
pub record WellFormed (w : Watchdog) : Type 0 where
  pub distinct : Distinct w.workers
  pub same_keys : (id : String) → has_key id w.thresholds ≡ has_key id w.workers

unregister-WellFormed :
    (id : String) (w : Watchdog) → WellFormed w → WellFormed (unregister_worker id w)
unfolding unregister_worker
unregister-WellFormed id w wf = record {
  distinct = remove-Distinct id w.workers wf.distinct;
  same_keys = λ j.
      ground
        (arith, wf.same_keys j, has_key-remove id j w.workers, has_key-remove id j w.thresholds);
}

register-WellFormed :
    (now : ℕ) (id : String) (threshold : Option ℕ) (w : Watchdog)
    → WellFormed w
    → WellFormed (register_worker now id threshold w)
unfolding register_worker
register-WellFormed now id threshold w wf = record {
  distinct = insert-Distinct id now w.workers wf.distinct;
  same_keys = λ j. ground (
    arith,
    wf.same_keys j,
    has_key-insert id j now w.workers,
    has_key-insert id j (or_default threshold) w.thresholds,
  );
}

beat-WellFormed :
    (now : ℕ) (id : String) (w : Watchdog) → WellFormed w → WellFormed (heartbeat now id w)
unfolding heartbeat
beat-WellFormed now id w wf =
    if_cases_true WellFormed (has_key id w.workers)
      (λ known. record {
        distinct = insert-Distinct id now w.workers wf.distinct;
        same_keys = λ j.
            ground (arith, wf.same_keys j, known, has_key-insert id j now w.workers, eq_iff id j);
      })
      wf

unregister_all-WellFormed :
    (ids : List String) (w : Watchdog) → WellFormed w → WellFormed (unregister_all ids w)
unfolding unregister_all
unregister_all-WellFormed [] w wf = wf
unregister_all-WellFormed (id ∷ ids) w wf =
    unregister_all-WellFormed ids (unregister_worker id w) (unregister-WellFormed id w wf)

step-WellFormed : (c : Call) (w : Watchdog) → WellFormed w → WellFormed (step c w)
unfolding step check_workers
step-WellFormed (register now id threshold) w wf = register-WellFormed now id threshold w wf
step-WellFormed (beat now id) w wf = beat-WellFormed now id w wf
step-WellFormed (unregister id) w wf = unregister-WellFormed id w wf
step-WellFormed (check now) w wf = unregister_all-WellFormed (stalled_among now w w.workers) w wf

empty-WellFormed : WellFormed empty
unfolding has_key
empty-WellFormed = record { distinct = ground arith; same_keys = λ id. refl }

-- After any sequence of calls, each worker is registered at most once, and exactly the registered
-- workers have a threshold: no threshold is left behind by a worker that went away.
pub Reachable-WellFormed : (w : Watchdog) → Reachable w → WellFormed w
Reachable-WellFormed _ start = empty-WellFormed
Reachable-WellFormed _ (next c w r) = step-WellFormed c w (Reachable-WellFormed w r)

unknown_beat :
    (now : ℕ) (id : String) (w : Watchdog)
    → lookup id w.workers ≡ none
    → lookup id (heartbeat now id w).workers ≡ none
unfolding heartbeat has_key
unknown_beat now id w h = ground (arith, h)

unknown_unreported :
    (now : ℕ) (id : String) (w : Watchdog)
    → WellFormed w
    → lookup id w.workers ≡ none
    → elem id (check_workers now w).1 ≡ false
unknown_unreported now id w wf h = (reported_iff_stale now w id wf.distinct).0 ∙ rw (h) refl

-- Once a check reported a worker, at any state that calls lead to, the next check does not report it
-- again, neither directly nor where the worker sent a heartbeat in between.
pub reported_once :
    (now later last : ℕ) (w : Watchdog) (id : String)
    → Reachable w
    → elem id (check_workers now w).1 ≡ true
    → (elem id (check_workers later (check_workers now w).0).1 ≡ false)
      × (elem id (check_workers later (heartbeat last id (check_workers now w).0)).1 ≡ false)
unfolding step
reported_once now later last w id r reported =
    let after = (check_workers now w).0 in
    let checked : Reachable after = next (check now) w r in
    let reached : Reachable (heartbeat last id after) = next (beat last id) after checked in
    let gone : lookup id after.workers ≡ none =
      (reported_iff_stale now w id (Reachable-WellFormed w r).distinct).1 ∙ rw (reported) refl in
    (
      unknown_unreported later id after (Reachable-WellFormed after checked) gone,
      unknown_unreported later id (heartbeat last id after) (Reachable-WellFormed _ reached)
          (unknown_beat last id after gone),
    )
