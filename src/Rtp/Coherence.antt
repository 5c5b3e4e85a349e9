-- ===== src/Rtp/Coherence.antt =====
-- What the worker of backend/core/realtime_protection.py keeps from one process to the next: its
-- cache, its counters and the pids that it has seen.
use graduationp.Prelude.{
  ℕ, suc, ◌+◌, ◌≤◌, Bool, true, false, String, List, [], ◌∷◌, Option, none, some, length, ◌≡◌, ap,
  ◌∙◌, arith, lower,
}
use graduationp.Prelude.Dict.{Dict, remove}
use graduationp.Value.{Value}
use graduationp.Rtp.Trust.{Host}
use graduationp.Rtp.Plan.{ProcessAction, EnforcementPlan, or_fingerprint}
use graduationp.Rtp.Processes.{
  Stats, Call, LiveProcess, kill_verified, kill, check_path, execute_process_action,
}
use graduationp.Rtp.Enforce.{Store, apply_enforcement}
use graduationp.Rtp.Kills.{killed_counted}
use graduationp.Rtp.Cache.{
  Cache, CacheEntry, cache_max, entry_of, get_cached_scan_entry, cache_bounded, hit_after_store,
}
use graduationp.Rtp.Scan.{scan_process_decision, scan_context_of}
use graduationp.Rtp.Watch.{
  Worker, Event, enforce, plan_for, with_parent, scan_or_fail, judge_scanned, judge_cached,
  judge_hit, judge, handle_launch,
}

length-remove-le : (k : String) (cache : Cache) → length (remove k cache) ≤ length cache
unfolding remove
length-remove-le k [] = omega arith
length-remove-le k ((j, v) ∷ cache) = ground (arith, length-remove-le k cache)

get_cached-length :
    (h : Host) (path : String) (cache : Cache)
    → length (get_cached_scan_entry h path cache).0 ≤ length cache
unfolding get_cached_scan_entry
get_cached-length h path cache = ground (arith, length-remove-le (lower path) cache)

-- The worker counts no more kills than threats, and its cache holds at most 5000 entries.
abbrev pub WellFormed : Worker → Type 0
WellFormed w = (w.stats.threats_killed ≤ w.stats.threats_found) × (length w.cache ≤ cache_max)

process-found :
    (h : Host) (cached : Bool) (name path : String) (action : ProcessAction)
    (process : Call LiveProcess) (s : Stats)
    → (execute_process_action h cached name path action process s).0.threats_found ≡ s.threats_found
unfolding execute_process_action kill_verified kill check_path
process-found h cached name path action process s = ground arith

process-killed-le :
    (h : Host) (cached : Bool) (name path : String) (action : ProcessAction)
    (process : Call LiveProcess) (s : Stats)
    → s.threats_killed + 1 ≤ s.threats_found
    → (execute_process_action h cached name path action process s).0.threats_killed
      ≤ (execute_process_action h cached name path action process s).0.threats_found
process-killed-le h cached name path action process s le = ground (
  arith,
  process-found h cached name path action process s,
  killed_counted h cached name path action process s,
)

or_same : (a b : Option (ℕ × ℕ)) → a ≡ b → or_fingerprint a b ≡ a
or_same a b e = rw (e) (ground arith)

module _ (h : Host) (store : Store) where
  enforce-cache :
      (e : Event) (cached : Bool) (plan : EnforcementPlan) (d : Dict Value) (sha256 : String)
      (w : Worker)
      → (enforce h store e cached plan d sha256 w).cache ≡ w.cache
  unfolding enforce
  enforce-cache e cached plan d sha256 w = ground arith

  enforce-counts :
      (e : Event) (cached : Bool) (plan : EnforcementPlan) (d : Dict Value) (sha256 : String)
      (w : Worker)
      → w.stats.threats_killed ≤ w.stats.threats_found
      → (enforce h store e cached plan d sha256 w).stats.threats_killed
        ≤ (enforce h store e cached plan d sha256 w).stats.threats_found
  unfolding enforce apply_enforcement
  enforce-counts e cached plan d sha256 w le = ground (
    arith,
    process-killed-le h cached e.launch.name e.launch.path plan.process_action e.process
        (record w.stats { threats_found = suc w.stats.threats_found }) (omega (arith, le)),
  )

  scan_fingerprint : (e : Event) → (scan_or_fail h e).2.fingerprint ≡ h.fingerprint e.launch.path
  unfolding scan_or_fail scan_process_decision scan_context_of
  scan_fingerprint e = ground arith

  enforce-WellFormed :
      (e : Event) (cached : Bool) (plan : EnforcementPlan) (d : Dict Value) (sha256 : String)
      (w : Worker)
      → WellFormed w
      → WellFormed (enforce h store e cached plan d sha256 w)
  enforce-WellFormed e cached plan d sha256 w (counts, room) = (
    enforce-counts e cached plan d sha256 w counts,
    rw (enforce-cache e cached plan d sha256 w) room,
  )

  judge_scanned-WellFormed :
      (e : Event) (w : Worker) → WellFormed w → WellFormed (judge_scanned h store e w)
  unfolding judge_scanned
  judge_scanned-WellFormed e w (counts, room) =
      let (d, sha256, c) = scan_or_fail h e in
      enforce-WellFormed e false (plan_for h e d c) d sha256 _
        (counts, cache_bounded h e.launch.path d sha256 (with_parent e c) w.cache room)

  judge_hit-WellFormed :
      (e : Event) (hit : Option CacheEntry) (w : Worker)
      → WellFormed w
      → WellFormed (judge_hit h store e hit w)
  unfolding judge_hit judge_cached
  judge_hit-WellFormed e none w wf = judge_scanned-WellFormed e w wf
  judge_hit-WellFormed e (some entry) w wf =
      enforce-WellFormed e true (plan_for h e entry.decision entry.scan_context) entry.decision
        entry.sha256 w wf

  pub judge-WellFormed : (e : Event) (w : Worker) → WellFormed w → WellFormed (judge h store e w)
  unfolding judge
  judge-WellFormed e w (counts, room) =
      let (cache, hit) = get_cached_scan_entry h e.launch.path w.cache in
      let room' : length cache ≤ cache_max =
        omega (arith, room, get_cached-length h e.launch.path w.cache) in
      judge_hit-WellFormed e hit (record w { cache = cache }) (counts, room')

  -- The handling of a process by the Windows loop keeps the worker well formed: no more kills than
  -- threats are counted, and the cache holds at most 5000 entries.
  pub handle_launch-WellFormed :
      (whitelist : List String) (e : Event) (w : Worker)
      → WellFormed w
      → WellFormed (handle_launch h store whitelist e w)
  unfolding handle_launch
  handle_launch-WellFormed whitelist e w wf = ground (arith, judge-WellFormed e w wf)

  -- After a process was scanned whose file can be looked at and did not change in between, a second
  -- process of that file, name and parent finds the cached decision, and its plan is the one that
  -- the scan led to.
  pub cached_plan_same :
      (e : Event) (w : Worker) (fingerprint : ℕ × ℕ)
      → h.fingerprint e.launch.path ≡ some fingerprint
      → let (d, sha256, c) = scan_or_fail h e in
        let entry = entry_of h e.launch.path d sha256 (with_parent e c) in
        ((get_cached_scan_entry h e.launch.path (judge_scanned h store e w).cache).1 ≡ some entry)
        × (plan_for h e entry.decision entry.scan_context ≡ plan_for h e d c)
  unfolding judge_scanned
  cached_plan_same e w fingerprint known =
      let (d, sha256, c) = scan_or_fail h e in
      let c' = with_parent e c in
      (
        rw (enforce-cache e false (plan_for h e d c) d sha256 _) (
            hit_after_store h e.launch.path d sha256 c' w.cache fingerprint known
              (scan_fingerprint e ∙ known)),
        ap (λ f. plan_for h e d (record c' { fingerprint = f }))
            (or_same c.fingerprint (h.fingerprint e.launch.path) (scan_fingerprint e)),
      )
