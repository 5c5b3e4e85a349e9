-- ===== src/Rtp/Agreement.antt =====
-- The guard of the quarantine vault lets through what the real-time protection hands to it:
-- backend/core/realtime_protection.py and backend/engines/scanning/quarantine_manager.py together.
use graduationp.Prelude.{◌∙◌, ap, ℕ, ◌≤◌, String, List, none, ◌≡◌, refl, arith, eq_iff, pos, ap}
use graduationp.Prelude.Dict.{Dict, lookup}
use graduationp.Value.{Value, text, int, get}
use graduationp.Platform.{Platform}
use graduationp.Decision.{
  Input, FinalDecision, build_final_decision, to_dict, default_block_threshold, score_band,
}
use graduationp.Decision.Actions.{static_block_iff_malicious}
use graduationp.Quarantine.Guards.{incomplete_decision, normalize_source_key, as_optional_int}
use graduationp.Quarantine.Vault.{request_of, get_text}
use graduationp.Rtp.Trust.{Host}
use graduationp.Rtp.Plan.{
  kill_process, quarantine_file, ScanContext, EnforcementPlan, Facts, facts_of,
}
use graduationp.Rtp.Decide.{decide, build_enforcement_plan}
use graduationp.Rtp.Guardrails.{decide_kill}
use graduationp.Rtp.Enforce.{file_action_text}
use graduationp.Rtp.Judged.{kill_blocks, blocked_completed, blocked_score}
use graduationp.Rtp.Enforce.{Launch, metadata_with, shown_verdict, file_action_text}
use graduationp.Rtp.Plan.{score_of}

complete_request :
    (p : Platform) (path : String) (m : Dict Value) (n : ℕ)
    → get "enforcement_source" m ≡ text "rtp"
    → get "decision_action" m ≡ text "block"
    → get "decision_verdict" m ≡ text "Malicious"
    → get "decision_score" m ≡ int (pos n)
    → get "file_action" m ≡ text "quarantine_file"
    → 1 ≤ n
    → incomplete_decision (request_of p path m) ≡ none
unfolding request_of incomplete_decision normalize_source_key get_text as_optional_int
complete_request p path m n source action verdict score file positive =
    rw (source, action, verdict, score, file) (ground (arith, positive))

static_label :
    (i : Input)
    → i.policy ≡ "static"
    → (build_final_decision i).verdict_code ≡ "malicious"
    → (build_final_decision i).verdict_label ≡ "Malicious"
unfolding build_final_decision score_band
static_label i p = rw p (
    ground (
      arith,
      eq_iff "unknown" "malicious",
      eq_iff "safe" "malicious",
      eq_iff "suspicious" "malicious",
    ))

decide-action : (f : Facts) → (decide f).decision_action ≡ f.decision_action
unfolding decide
decide-action f = ground arith

malicious_shown :
    (d : FinalDecision) → d.verdict_label ≡ "Malicious" → shown_verdict (to_dict d) ≡ "Malicious"
unfolding shown_verdict to_dict
malicious_shown d h = rw h refl

score_read : (d : FinalDecision) → 1 ≤ d.score → score_of (to_dict d) ≡ pos d.score
unfolding score_of to_dict
score_read d h = ground (arith, h)

module _ (h : Host) (l : Launch) (i : Input) (c : ScanContext) where
  abbrev final : FinalDecision
  final = build_final_decision i

  abbrev plan : EnforcementPlan
  plan = build_enforcement_plan h l.name l.path (to_dict final) c

  plan_blocks : plan.process_action ≡ kill_process → plan.decision_action ≡ "block"
  unfolding build_enforcement_plan
  plan_blocks k =
      let f = facts_of h l.name l.path (to_dict final) c in decide-action f ∙ (decide_kill f k).0

  -- The vault's guard against incomplete decisions never refuses what an enforcement plan tells it
  -- to quarantine, where the plan comes from a final decision under the static policy and the
  -- default threshold, without an explicit action.
  pub plan_complete_for_vault :
      (p : Platform) (sha256 : String) (rules : List String)
      → i.explicit_action ≡ ""
      → i.policy ≡ "static"
      → i.block_threshold ≡ default_block_threshold
      → plan.process_action ≡ kill_process
      → plan.file_action ≡ quarantine_file
      → incomplete_decision
          (request_of p l.path (metadata_with l plan (to_dict final) sha256 rules))
        ≡ none
  unfolding metadata_with get lookup
  plan_complete_for_vault p sha256 rules e s t kill file =
      let blocks = kill_blocks h l i c kill in
      let completed = blocked_completed i blocks in
      let malicious = (static_block_iff_malicious i completed e s t).0 blocks in
      let score = blocked_score i e t blocks in
      complete_request p l.path _ final.score refl (ap text (plan_blocks kill))
        (ap text (malicious_shown final (static_label i s malicious)))
        (ap int (score_read final (omega (arith, score))))
        (ap (λ a. text (file_action_text a)) file) (omega (arith, score))
