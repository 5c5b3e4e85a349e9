-- ===== src/Rtp/Judged.antt =====
-- From the score of a scan to the end of a process: backend/engines/scanning/decision.py and
-- backend/core/realtime_protection.py together.
use graduationp.Prelude.{refl, suc, suc, Bool, false, ◌&&◌, String, ◌≡◌, ◌≤◌, arith, eq_iff}
use graduationp.Prelude.Dict.{Dict}
use graduationp.Value.{Value}
use graduationp.Decision.{
  Input, FinalDecision, build_final_decision, to_dict, default_block_threshold,
}
use graduationp.Decision.Actions.{static_block_iff_malicious, action_by_threshold}
use graduationp.Quarantine.Vault.{Vault}
use graduationp.Rtp.Trust.{
  Host, is_windows_system_path, is_not_false, is_trusted_sentinel_internal_helper,
}
use graduationp.Rtp.Plan.{
  ProcessAction, kill_process, ScanContext, EnforcementPlan, get_first, has_explicit_override,
  facts_of,
}
use graduationp.Rtp.Decide.{build_enforcement_plan}
use graduationp.Rtp.Guardrails.{decide_kill, kill_needs_evidence}
use graduationp.Rtp.Processes.{Call, LiveProcess, Stats, terminated, execute_process_action}
use graduationp.Rtp.Enforce.{Store, Launch, apply_enforcement}

stored_block :
    (d : FinalDecision)
    → get_first "action" "action" "allow" (to_dict d) ≡ "block"
    → d.action ≡ "block"
unfolding get_first to_dict
stored_block d h = ground (arith, eq_iff d.action "", eq_iff "allow" "block")

terminated_kill :
    (h : Host) (cached : Bool) (name path : String) (action : ProcessAction)
    (process : Call LiveProcess) (s : Stats)
    → (execute_process_action h cached name path action process s).1 ≡ terminated
    → action ≡ kill_process
unfolding execute_process_action
terminated_kill h cached name path action process s k = ground arith

pub blocked_completed :
    (i : Input) → (build_final_decision i).action ≡ "block" → i.scan_failed ≡ false
unfolding build_final_decision
blocked_completed i h = ground (arith, eq_iff "allow" "block")

pub blocked_score :
    (i : Input)
    → i.explicit_action ≡ ""
    → i.block_threshold ≡ default_block_threshold
    → (build_final_decision i).action ≡ "block"
    → 60 ≤ (build_final_decision i).score
blocked_score i e t b =
    let completed = blocked_completed i b in
    let by_threshold = action_by_threshold i completed (rw (e) refl) in
    ground (arith, by_threshold, eq_iff "allow" "block")

pub kill_blocks :
    (h : Host) (l : Launch) (i : Input) (c : ScanContext)
    → (build_enforcement_plan h l.name l.path (to_dict (build_final_decision i)) c).process_action
      ≡ kill_process
    → (build_final_decision i).action ≡ "block"
unfolding build_enforcement_plan facts_of
kill_blocks h l i c k =
    let d = build_final_decision i in
    stored_block d (decide_kill (facts_of h l.name l.path (to_dict d) c) k).0

module _ (h : Host) (store : Store) (l : Launch) (i : Input) (c : ScanContext) where
  abbrev decision : Dict Value
  decision = to_dict (build_final_decision i)

  abbrev plan : EnforcementPlan
  plan = build_enforcement_plan h l.name l.path decision c

  -- Under the static policy and the default threshold, and without an explicit action or override,
  -- a process is terminated only where its scan completed with a score of at least 60 and the
  -- verdict code "malicious", and never where its executable is a Windows system file whose
  -- signature is not known to be bad, or a Sentinel helper that this Sentinel started.
  pub only_malicious_terminated :
      (sha256 : String) (cached : Bool) (process : Call LiveProcess) (s : Stats) (v : Vault)
      → i.explicit_action ≡ ""
      → i.policy ≡ "static"
      → i.block_threshold ≡ default_block_threshold
      → has_explicit_override decision ≡ false
      → (apply_enforcement h store l plan decision sha256 cached process s v).2 ≡ terminated
      → (i.scan_failed ≡ false)
        × (60 ≤ (build_final_decision i).score)
        × ((build_final_decision i).verdict_code ≡ "malicious")
        × ((is_windows_system_path h l.path && is_not_false c.signature_valid) ≡ false)
        × (is_trusted_sentinel_internal_helper h l.name l.path c.parent_pid ≡ false)
  unfolding apply_enforcement
  only_malicious_terminated sha256 cached process s v e p t o k =
      let kill =
        terminated_kill h cached l.name l.path plan.process_action process
          (record s { threats_found = suc s.threats_found }) k in
      let blocks = kill_blocks h l i c kill in
      let completed = blocked_completed i blocks in
      let guards = kill_needs_evidence h l.name l.path decision c kill o in
      (
        completed,
        blocked_score i e t blocks,
        (static_block_iff_malicious i completed e p t).0 blocks,
        guards.4,
        guards.1,
      )
