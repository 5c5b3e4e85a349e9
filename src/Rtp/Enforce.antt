-- ===== src/Rtp/Enforce.antt =====
-- `_execute_file_action` and `_apply_enforcement` of
-- backend/core/realtime_protection.py.
use graduationp.Prelude.Dict.{Dict}
use graduationp.Value.{
  int, text, list_value, list_of, to_str, bool, null, truthy, Value, str_or_empty, get,
}
use graduationp.Prelude.{
  [], ◌∷◌, ℤ, List, ℕ, suc, Bool, true, false, String, ◌==◌, Option, none, some, if◌then◌else◌,
}
use graduationp.Quarantine.Ops.{Outcome}
use graduationp.Quarantine.Ops
use graduationp.Quarantine.Vault.{Vault, Env}
use graduationp.Rtp.Trust.{Host}
use graduationp.Rtp.Plan.{
  has_explicit_override, score_of, EnforcementPlan, FileAction, ProcessAction, allow_process,
  log_only, kill_process, allow_file, quarantine_file, delete_file,
}
use graduationp.Rtp.Processes.{
  Call, LiveProcess, Stats, ProcessResult, terminated, execute_process_action,
}

pub data FileResult : Type 0 where
  guardrail_allow allowed skipped_process_not_terminated : FileResult
  quarantined quarantine_failed delete_not_supported : FileResult

-- What the enforcement knows of the launched process besides its executable.
pub record Launch : Type 0 where
  pub name : String
  pub path : String
  pub pid : ℤ

abbrev process_action_text : ProcessAction → String
process_action_text allow_process = "allow"
process_action_text log_only = "log_only"
process_action_text kill_process = "kill_process"

abbrev pub file_action_text : FileAction → String
file_action_text allow_file = "allow"
file_action_text quarantine_file = "quarantine_file"
file_action_text delete_file = "delete_file"

abbrev signature_value : Option Bool → Value
signature_value none = null
signature_value (some b) = bool b

-- `str(d.get("verdict_label", "Unknown") or "Unknown")`
unfoldable pub shown_verdict : Dict Value → String
unfolding get truthy to_str
shown_verdict d =
    if truthy (get "verdict_label" d) then to_str (get "verdict_label" d) else "Unknown"

-- The metadata of a quarantine, with the triggered rules.
unfoldable pub metadata_with :
    Launch → EnforcementPlan → Dict Value → String → List String → Dict Value
metadata_with l plan d sha256 rules =
    ("enforcement_source", text "rtp")
    ∷ ("source_detail", text "process_scanner")
    ∷ ("decision_action", text plan.decision_action)
    ∷ ("decision_enforcement_source", text (str_or_empty (get "enforcement_source" d)))
    ∷ ("override_type", text (str_or_empty (get "override_type" d)))
    ∷ ("process_action", text (process_action_text plan.process_action))
    ∷ ("file_action", text (file_action_text plan.file_action))
    ∷ ("action_reason", text plan.reason)
    ∷ ("decision_score", int (score_of d))
    ∷ ("decision_verdict", text (shown_verdict d))
    ∷ ("allow_protected_quarantine", bool (has_explicit_override d))
    ∷ ("process_name", text l.name)
    ∷ ("pid", int l.pid)
    ∷ ("sha256", text sha256)
    ∷ ("publisher", text plan.publisher)
    ∷ ("signature_valid", signature_value plan.signature_valid)
    ∷ ("strong_evidence", bool plan.strong_evidence)
    ∷ ("matched_rules", list_value rules)
    ∷ []

-- The metadata of a quarantine; `none` where listing the triggered rules raises.
unfoldable pub quarantine_metadata :
    Launch → EnforcementPlan → Dict Value → String → Option (Dict Value)
unfolding metadata_with get list_of
quarantine_metadata l plan d sha256 = elim (list_of (get "triggered_rules" d)) [
  | none ↦ none
  | some rules ↦ some (metadata_with l plan d sha256 rules)
]

-- `result.get("success")`
abbrev succeeded : Outcome → FileResult
succeeded (Outcome.quarantined _ _) = quarantined
succeeded _ = quarantine_failed

-- `result == "terminated"`
abbrev pub is_terminated : ProcessResult → Bool
is_terminated terminated = true
is_terminated _ = false

-- The vault that the file goes into, with what it calls.
pub record Store : Type 0 where
  pub hash : List ℕ → String
  pub env : Env

module _ (h : Host) (store : Store) (l : Launch) (plan : EnforcementPlan) (d : Dict Value)
    (sha256 : String) where
  unfoldable pub quarantine_launched : Vault → Vault × FileResult
  unfolding quarantine_metadata Ops.quarantine_file
  quarantine_launched v = elim (quarantine_metadata l plan d sha256) [
    | none ↦ (v, quarantine_failed)
    | some metadata ↦
        let (v', outcome) = Ops.quarantine_file h.platform store.hash store.env l.path metadata v in
        (v', succeeded outcome)
  ]

  unfoldable pub execute_file_action : FileAction → ProcessResult → Vault → Vault × FileResult
  unfolding quarantine_launched
  execute_file_action allow_file result v =
      (v, if plan.decision_action == "block" then guardrail_allow else FileResult.allowed)
  execute_file_action quarantine_file result v =
      if is_terminated result then quarantine_launched v else (v, skipped_process_not_terminated)
  execute_file_action delete_file result v =
      (v, if is_terminated result then delete_not_supported else skipped_process_not_terminated)

  -- What `_apply_enforcement` changes, and the two results that its threat event records.
  unfoldable pub apply_enforcement :
      Bool → Call LiveProcess → Stats → Vault → Stats × Vault × ProcessResult × FileResult
  unfolding execute_process_action execute_file_action
  apply_enforcement cached process s v =
      let found = record s { threats_found = suc s.threats_found } in
      let (s', process_result) =
        execute_process_action h cached l.name l.path plan.process_action process found in
      let (v', file_result) = execute_file_action plan.file_action process_result v in
      (s', v', process_result, file_result)
