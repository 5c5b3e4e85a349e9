-- ===== src/Rtp/Guardrails.antt =====
-- What the guardrails of backend/core/realtime_protection.py let through.
use graduationp.Prelude.{true, false, ◌&&◌, not, String, ◌≡◌, arith, eq_iff, pos, leb_ℤ, elem}
use graduationp.Prelude.Dict.{Dict}
use graduationp.Value.{Value}
use graduationp.Rtp.Trust.{
  Host, is_true, is_not_false, is_windows_system_path, is_trusted_sentinel_internal_helper,
}
use graduationp.Rtp.Plan.{
  kill_process, quarantine_file, ScanContext, Facts, facts_of, EnforcementPlan,
  has_explicit_override, supports_destructive_enforcement, incomplete_verdicts, verdict_word,
  score_of, get_word,
}
use graduationp.Rtp.Decide.{decide, build_enforcement_plan}

pub decide_kill :
    (f : Facts)
    → (decide f).process_action ≡ kill_process
    → (f.decision_action ≡ "block")
      × (f.trusted_internal_helper ≡ false)
      × (f.decision_complete ≡ true)
      × ((f.protected_install && not f.explicit_override) ≡ false)
      × ((is_true f.signature_valid && not f.strong_evidence && not f.explicit_override) ≡ false)
unfolding decide
decide_kill f h = ground (arith, eq_iff f.decision_action "block")

decide_quarantine :
    (f : Facts)
    → (decide f).file_action ≡ quarantine_file
    → ((decide f).process_action ≡ kill_process) × (f.strong_evidence ≡ true)
unfolding decide
decide_quarantine f h = ground arith

-- The destructive plan of a decision without an override
complete_evidence :
    (d : Dict Value)
    → (supports_destructive_enforcement d).0 ≡ true
    → has_explicit_override d ≡ false
    → (get_word "action" d ≡ "block")
      × (leb_ℤ (score_of d) (pos 0) ≡ false)
      × (elem (verdict_word d) incomplete_verdicts ≡ false)
unfolding supports_destructive_enforcement
complete_evidence d h o = ground (arith, eq_iff (get_word "action" d) "block")

module _ (h : Host) (name path : String) (d : Dict Value) (c : ScanContext) where
  abbrev plan : EnforcementPlan
  plan = build_enforcement_plan h name path d c

  -- Without an explicit override, a plan kills the process only for a decision to block with a
  -- positive score and a verdict that is none of "", unknown, safe and suspicious; never where the
  -- process is a Sentinel helper that this Sentinel started, or its file is a Windows system file
  -- with a signature that is not known to be bad; and for a validly signed file only with strong
  -- evidence.
  pub kill_needs_evidence :
      plan.process_action ≡ kill_process
      → has_explicit_override d ≡ false
      → (get_word "action" d ≡ "block")
        × (is_trusted_sentinel_internal_helper h name path c.parent_pid ≡ false)
        × (leb_ℤ (score_of d) (pos 0) ≡ false)
        × (elem (verdict_word d) incomplete_verdicts ≡ false)
        × ((is_windows_system_path h path && is_not_false c.signature_valid) ≡ false)
        × ((is_true c.signature_valid && not c.strong_evidence) ≡ false)
  unfolding build_enforcement_plan facts_of
  kill_needs_evidence k o =
      let f = facts_of h name path d c in
      let guards = decide_kill f k in
      let evidence = complete_evidence d guards.2 o in ground (arith, guards, evidence)

  -- A plan quarantines the file only where it also kills the process and the evidence is strong.
  pub quarantine_needs_strong_evidence :
      plan.file_action ≡ quarantine_file
      → (plan.process_action ≡ kill_process) × (c.strong_evidence ≡ true)
  unfolding build_enforcement_plan facts_of
  quarantine_needs_strong_evidence k = decide_quarantine (facts_of h name path d c) k
