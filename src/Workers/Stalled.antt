-- ===== src/Workers/Stalled.antt =====
-- Which workers `_check_workers` of backend/core/workers.py reports.
use graduationp.Prelude.{
  ℕ, false, String, List, [], ◌∷◌, none, some, elem, if◌then◌else◌, ◌≡◌, refl, arith, eq_iff,
}
use graduationp.Prelude.Dict.{Distinct, Dict, lookup, has_key, lookup-remove}
use graduationp.Workers.Watchdog.{
  Watchdog, unregister_worker, is_stale, stalled_among, unregister_all, check_workers,
}

elem-stalled_among :
    (now : ℕ) (w : Watchdog) (d : Dict ℕ) (id : String)
    → Distinct d
    → elem id (stalled_among now w d)
      ≡ elim (lookup id d) [ none ↦ false | some last ↦ is_stale now w id last ]
unfolding elem stalled_among lookup has_key
elem-stalled_among now w [] id distinct = refl
elem-stalled_among now w ((k, last) ∷ d) id (fresh, distinct) =
    ground (arith, elem-stalled_among now w d id, eq_iff k id, eq_iff id k)

lookup-unregister_all :
    (ids : List String) (id : String) (w : Watchdog)
    → lookup id (unregister_all ids w).workers ≡ (if elem id ids then none else lookup id w.workers)
unfolding unregister_all unregister_worker elem
lookup-unregister_all [] id w = refl
lookup-unregister_all (k ∷ ids) id w = ground (
  arith,
  lookup-unregister_all ids id (unregister_worker k w),
  lookup-remove k id w.workers,
  eq_iff k id,
  eq_iff id k,
)

-- Where each worker is registered once, a check reports a worker exactly when it is registered and
-- its last sign of life is longer ago than its threshold; it forgets the workers that it reported,
-- and touches no other.
pub reported_iff_stale :
    (now : ℕ) (w : Watchdog) (id : String)
    → Distinct w.workers
    → (elem id (check_workers now w).1
        ≡ elim (lookup id w.workers) [ none ↦ false | some last ↦ is_stale now w id last ])
      × (lookup id (check_workers now w).0.workers
          ≡ (if elem id (check_workers now w).1 then none else lookup id w.workers))
unfolding check_workers
reported_iff_stale now w id distinct = (
  elem-stalled_among now w w.workers id distinct,
  lookup-unregister_all (stalled_among now w w.workers) id w,
)
