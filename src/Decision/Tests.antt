-- ===== src/Decision/Tests.antt =====
-- Runs of backend/engines/scanning/decision.py, and each theorem about it at an input.
use graduationp.Prelude.{
  strip, true, false, some, [], ◌∷◌, String, ◌≡◌, ◌≢◌, ◌↔◌, refl, eq_iff, elem, pos, arith,
}
use graduationp.Value.{null, text, bool, truthy, get, to_str, str_or_empty}
use graduationp.Decision.{
  Input, build_final_decision, default_block_threshold, coerce_int, clamp_score, reached_reason,
}
use graduationp.Decision.Rules.{ScanResult, extract_triggered_rules}
use graduationp.Decision.Actions.{static_block_iff_malicious}
use graduationp.Decision.Reread.{
  decision_from_scan_result, result_failed, storing, stored_decision_kept,
}

abbrev high : Input
high = record {
  score = text " 87 ";
  verdict = text "Clean";
  confidence = null;
  policy = "static";
  block_threshold = default_block_threshold;
  triggered_rules = "ClamAV:Eicar" ∷ [];
  scan_failed = false;
  explicit_action = "";
  override_type = "";
  action_reason = "";
  enforcement_source = "";
}

abbrev failed : Input
failed = record high { scan_failed = true }

abbrev scan : ScanResult
scan = record {
  attributes = ("verdict", text "Malicious") ∷ [];
  clamav = ("infected", bool true) ∷ ("signature", text "Eicar") ∷ [];
  groq_analysis = ("verdict", text "Malicious") ∷ [];
  finding_titles = text "Packed" ∷ text " " ∷ text "Packed" ∷ text "Fourth" ∷ [];
  final_decision = [];
}

high_blocks :
    (build_final_decision high).action_reason
    ≡ "Threat score 87/100 reached the block threshold (60/100)."
unfolding build_final_decision coerce_int clamp_score reached_reason
high_blocks = refl

scan_rules : extract_triggered_rules scan ≡ "ClamAV:Eicar" ∷ "Groq:Malicious" ∷ "Packed" ∷ []
unfolding extract_triggered_rules elem truthy get strip to_str str_or_empty
scan_rules = refl

static_block_iff_malicious_example :
    ((build_final_decision high).action ≡ "block")
    ↔ ((build_final_decision high).verdict_code ≡ "malicious")
static_block_iff_malicious_example = static_block_iff_malicious high refl refl refl refl

scan_completed : result_failed scan ≡ false
unfolding result_failed
scan_completed = refl

static_ne : ◌≢◌ {A = String} "static" ""
static_ne = ground (arith, eq_iff "static" "")

stored_decision_kept_example :
    decision_from_scan_result (storing scan (build_final_decision high)) "scoring" (pos 90)
    ≡ some (record (build_final_decision high) {
      raw_verdict = (build_final_decision high).verdict_label;
    })
stored_decision_kept_example =
    stored_decision_kept scan high "scoring" (pos 90) refl refl refl static_ne scan_completed
