-- ===== src/Rtp/Decide.antt =====
-- The guardrails of `_build_enforcement_plan` in backend/core/realtime_protection.py, in their order.
use graduationp.Prelude.{Bool, true, false, ◌&&◌, not, String, ◌==◌, ◌++ˢ◌, if◌then◌else◌}
use graduationp.Prelude.Dict.{Dict}
use graduationp.Value.{Value}
use graduationp.Rtp.Trust.{Host, is_true}
use graduationp.Rtp.Plan.{
  ProcessAction, allow_process, log_only, kill_process, FileAction, allow_file, quarantine_file,
  EnforcementPlan, ScanContext, Facts, facts_of,
}

-- An `EnforcementPlan` that copies what it does not decide from the facts.
unfoldable pub plan_with : Facts → ProcessAction → FileAction → Bool → String → EnforcementPlan
plan_with f process file strong reason = record {
  decision_action = f.decision_action;
  process_action = process;
  file_action = file;
  reason = f.prefix ++ˢ reason;
  trusted_install = f.trusted_install;
  protected_signed_install = f.protected_signed_install;
  trusted_internal_helper = f.trusted_internal_helper;
  strong_evidence = strong;
  publisher = f.publisher;
  signature_valid = f.signature_valid;
  fingerprint = f.fingerprint;
}

abbrev helper_reason : String
helper_reason = " — Guardrail: Sentinel internal helper; enforcement downgraded to log_only."

abbrev incomplete_reason : String
incomplete_reason = " — Guardrail: decision incomplete; enforcement downgraded to log_only."

abbrev protected_reason : String
protected_reason =
    " — Guardrail: protected/signed install; enforcement downgraded to log_only. Use an explicit override rule to enable enforcement."

abbrev signed_reason : String
signed_reason =
    " — Guardrail: valid Authenticode signature without corroborating ClamAV or explicit-override evidence; enforcement downgraded to log_only to prevent false positive."

abbrev strong_reason : String
strong_reason =
    " Strong corroborating evidence (ClamAV or explicit override) authorizes process kill and file quarantine."

abbrev trusted_reason : String
trusted_reason =
    " File quarantine skipped: signed software in a trusted install path requires ClamAV corroboration for destructive file action."

abbrev score_only_reason : String
score_only_reason =
    " File quarantine skipped: score-only evidence never authorizes destructive file action without corroborating signals."

-- The guards of `_build_enforcement_plan`, in the order of the source.
unfoldable pub decide : Facts → EnforcementPlan
unfolding plan_with
decide f =
    if not (f.decision_action == "block")
    then plan_with f allow_process allow_file f.strong_evidence ""
    else if f.trusted_internal_helper
    then plan_with f log_only allow_file f.strong_evidence helper_reason
    else if not f.decision_complete
    then plan_with f log_only allow_file f.strong_evidence
        (f.completeness_reason ++ˢ incomplete_reason)
    else if f.protected_install && not f.explicit_override
    then plan_with f log_only allow_file f.strong_evidence protected_reason
    else if is_true f.signature_valid && not f.strong_evidence && not f.explicit_override
    then plan_with f log_only allow_file false signed_reason
    else if f.strong_evidence
    then plan_with f kill_process quarantine_file true strong_reason
    else plan_with f kill_process allow_file false
        (if f.protected_signed_install then trusted_reason else score_only_reason)

unfoldable pub build_enforcement_plan :
    Host → String → String → Dict Value → ScanContext → EnforcementPlan
unfolding decide facts_of
build_enforcement_plan h name path d c = decide (facts_of h name path d c)
