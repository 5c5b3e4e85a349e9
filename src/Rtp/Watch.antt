-- ===== src/Rtp/Watch.antt =====
-- What backend/core/realtime_protection.py does with one new process: the body of the loop of
-- `run` and, below the skips of its own, of `_run_linux`.
use graduationp.Prelude.{
  ℕ, suc, Bool, true, false, ◌||◌, not, String, ◌==◌, ◌++ˢ◌, List, Option, none, some, elem,
  if◌then◌else◌, ℤ,
}
use graduationp.Prelude.Dict.{Dict}
use graduationp.Value.{Value}
use graduationp.Quarantine.Vault.{Vault}
use graduationp.Rtp.Trust.{
  Host, is_user_whitelisted, name_matches_whitelist_prefix, is_trusted_sentinel_internal_helper,
}
use graduationp.Rtp.Plan.{ProcessAction, allow_process, ScanContext, EnforcementPlan}
use graduationp.Rtp.Decide.{build_enforcement_plan}
use graduationp.Rtp.Processes.{Call, LiveProcess, Stats}
use graduationp.Rtp.Enforce.{Store, Launch, apply_enforcement}
use graduationp.Rtp.Cache.{Cache, CacheEntry, cache_scan_decision, get_cached_scan_entry}
use graduationp.Rtp.Scan.{
  ScanRun, scan_error, scanned, scan_process_decision, failed_scan, empty_context,
}
use graduationp.Rtp.Whitelist.{whitelisted_processes}

-- The state of the worker, and the vault that it quarantines into.
pub record Worker : Type 0 where
  pub total_scanned : ℕ
  pub stats : Stats
  pub cache : Cache
  pub vault : Vault

-- A new process, with what scanning its executable and looking at it give.
pub record Event : Type 0 where
  pub launch : Launch
  pub parent_pid : Option ℤ
  pub scan : ScanRun
  pub process : Call LiveProcess

abbrev is_allow : ProcessAction → Bool
is_allow allow_process = true
is_allow _ = false

abbrev pub with_parent : Event → ScanContext → ScanContext
with_parent e c = record c { parent_pid = e.parent_pid }

module _ (h : Host) where
  abbrev pub plan_for : Event → Dict Value → ScanContext → EnforcementPlan
  plan_for e d c = build_enforcement_plan h e.launch.name e.launch.path d (with_parent e c)

  -- the decision, the hash and the context of a scan, where a scan that raises is a failed one
  unfoldable pub scan_or_fail : Event → Dict Value × String × ScanContext
  unfolding scan_process_decision failed_scan
  scan_or_fail e = elim (scan_process_decision h e.launch.path e.scan) [
    | scan_error why ↦ (failed_scan ("Scan error: " ++ˢ why) "", "", empty_context h e.launch.path)
    | scanned d sha256 c ↦ (d, sha256, c)
  ]

  -- the skips of the Windows loop
  unfoldable pub is_skipped : List String → Event → Bool
  unfolding elem name_matches_whitelist_prefix is_user_whitelisted
      is_trusted_sentinel_internal_helper
  is_skipped user_whitelist e =
      elem e.launch.name whitelisted_processes
      || name_matches_whitelist_prefix e.launch.name
      || is_user_whitelisted h e.launch.name e.launch.path user_whitelist
      || e.launch.path == ""
      || not (h.file_exists e.launch.path)
      || is_trusted_sentinel_internal_helper h e.launch.name e.launch.path e.parent_pid

module _ (h : Host) (store : Store) where
  -- `if plan.process_action != "allow": self._apply_enforcement(...)`
  unfoldable pub enforce : Event → Bool → EnforcementPlan → Dict Value → String → Worker → Worker
  unfolding apply_enforcement
  enforce e cached plan d sha256 w =
      let (s, v, _, _) =
        apply_enforcement h store e.launch plan d sha256 cached e.process w.stats w.vault in
      if is_allow plan.process_action then w else record w { stats = s; vault = v }

  -- from "Scan the executable" on
  unfoldable pub judge_scanned : Event → Worker → Worker
  unfolding enforce scan_or_fail cache_scan_decision
  judge_scanned e w =
      let (d, sha256, c) = scan_or_fail h e in
      enforce e false (plan_for h e d c) d sha256 (record w {
        total_scanned = suc w.total_scanned;
        cache = cache_scan_decision h e.launch.path d sha256 (with_parent e c) w.cache;
      })

  -- a cached decision
  unfoldable pub judge_cached : Event → CacheEntry → Worker → Worker
  unfolding enforce
  judge_cached e entry w =
      enforce e true (plan_for h e entry.decision entry.scan_context) entry.decision entry.sha256 w

  unfoldable pub judge_hit : Event → Option CacheEntry → Worker → Worker
  unfolding judge_cached judge_scanned
  judge_hit e none w = judge_scanned e w
  judge_hit e (some entry) w = judge_cached e entry w

  -- from "Check scan cache" on
  unfoldable pub judge : Event → Worker → Worker
  unfolding get_cached_scan_entry judge_hit
  judge e w =
      let (cache, hit) = get_cached_scan_entry h e.launch.path w.cache in
      judge_hit e hit (record w { cache = cache })

  unfoldable pub handle_launch : List String → Event → Worker → Worker
  unfolding is_skipped judge
  handle_launch user_whitelist e w = if is_skipped h user_whitelist e then w else judge e w
