-- ===== src/Decision.antt =====
-- backend/engines/scanning/decision.py: score and verdict of a scan become one final decision.
-- The children: what triggered it (Rules), when it blocks (Actions), and the decision read back
-- from a stored scan result (Reread).
pub mod Rules
pub mod Actions
pub mod Reread
mod Tests
use graduationp.Prelude.{
  ℕ, Bool, true, false, ◌&&◌, Option, none, some, List, [], ◌∷◌, String, ◌==◌, ◌++ˢ◌, strip, lower,
  show_nat, ltb, leb, leb_ℤ, not, if◌then◌else◌, ℤ, pos, negsuc,
}
use graduationp.Prelude.Dict.{Dict, lookup}
use graduationp.Value.{
  Value, null, int, text, object, Object, as_int, str_or_empty, is_given, show_int, list_value,
}

abbrev pub default_block_threshold : ℤ
default_block_threshold = pos 60

-- (upper bound, code, label)
abbrev Band : Type 0
Band = ℕ × String × String

abbrev pub static_bands : List Band
static_bands =
    (19, "safe", "Safe") ∷ (59, "suspicious", "Suspicious") ∷ (100, "malicious", "Malicious") ∷ []

abbrev pub scoring_bands : List Band
scoring_bands =
    (20, "safe", "Safe")
    ∷ (50, "suspicious", "Suspicious")
    ∷ (80, "likely_malicious", "Likely Malicious")
    ∷ (100, "malicious", "Malicious")
    ∷ []

-- `_POLICIES.get(policy, _POLICIES["static"])`
unfoldable pub bands_of : String → List Band
bands_of policy = if policy == "scoring" then scoring_bands else static_bands

-- The loop of `_score_band`. Past the last bound the last band is returned.
unfoldable pub first_band : ℕ → List Band → String × String
first_band score [] = ("", "")
first_band score ((upper, code, label) ∷ []) = (code, label)
first_band score ((upper, code, label) ∷ band ∷ bands) =
    if leb score upper then (code, label) else first_band score (band ∷ bands)

unfoldable pub score_band : String → ℕ → String × String
unfolding bands_of first_band
score_band policy score = first_band score (bands_of policy)

abbrev verdict_aliases : Dict (String × String)
verdict_aliases =
    ("safe", ("safe", "Safe"))
    ∷ ("clean", ("safe", "Safe"))
    ∷ ("benign", ("safe", "Safe"))
    ∷ ("suspicious", ("suspicious", "Suspicious"))
    ∷ ("likely_malicious", ("likely_malicious", "Likely Malicious"))
    ∷ ("likely malicious", ("likely_malicious", "Likely Malicious"))
    ∷ ("malicious", ("malicious", "Malicious"))
    ∷ ("unknown", ("unknown", "Unknown"))
    ∷ ("inconclusive", ("unknown", "Unknown"))
    ∷ []

unfoldable pub normalize_verdict : String → String × String
unfolding lookup strip lower
normalize_verdict verdict = elim (lookup (lower (strip verdict)) verdict_aliases) [
  | none ↦ ("unknown", "Unknown")
  | some found ↦ found
]

-- `_coerce_int(value, default)`
unfoldable pub coerce_int : Value → ℤ → ℤ
unfolding as_int
coerce_int value default = elim (as_int value) [ none ↦ default | some z ↦ z ]

-- `max(0, min(100, z))`
unfoldable pub clamp_score : ℤ → ℕ
clamp_score (pos n) = if ltb 100 n then 100 else n
clamp_score (negsuc n) = 0

pub record FinalDecision : Type 0 where
  pub score : ℕ
  pub verdict_code : String
  pub verdict_label : String
  pub action : String
  pub action_reason : String
  pub enforcement_source : String
  pub enforcement_threshold : ℤ
  pub confidence : Option ℤ
  pub override_type : String
  pub triggered_rule : String
  pub triggered_rules : List String
  pub policy : String
  pub raw_verdict : String

-- The keyword arguments of `build_final_decision`. An argument that is tested for its truth is
-- "" where the source passes None.
pub record Input : Type 0 where
  pub score : Value
  pub verdict : Value
  pub confidence : Value
  pub policy : String
  pub block_threshold : ℤ
  pub triggered_rules : List String
  pub scan_failed : Bool
  pub explicit_action : String
  pub override_type : String
  pub action_reason : String
  pub enforcement_source : String

-- `a or b` of texts
abbrev or_else : String → String → String
or_else a b = if a == "" then b else a

abbrev first_or_empty : List String → String
first_or_empty [] = ""
first_or_empty (rule ∷ rules) = rule

abbrev pub confidence_of : Value → Option ℤ
confidence_of value = if is_given value then some (coerce_int value (pos 0)) else none

unfoldable pub reached_reason : ℕ → ℤ → String
unfolding show_nat show_int
reached_reason score threshold =
    "Threat score "
    ++ˢ show_nat score
    ++ˢ "/100 reached the block threshold ("
    ++ˢ show_int threshold
    ++ˢ "/100)."

unfoldable pub below_reason : ℕ → ℤ → String
unfolding show_nat show_int
below_reason score threshold =
    "Threat score "
    ++ˢ show_nat score
    ++ˢ "/100 stayed below the block threshold ("
    ++ˢ show_int threshold
    ++ˢ "/100)."

-- The branch on the action: the action, its reason and its source.
unfoldable pub choose_action : Input → ℕ → String × String × String
choose_action i score =
    if not (i.explicit_action == "") && not (i.explicit_action == "allow")
    then (
      i.explicit_action,
      or_else i.action_reason "Explicit override rule triggered enforcement.",
      or_else i.enforcement_source "explicit_override",
    )
    else if leb_ℤ i.block_threshold (pos score)
    then (
      "block",
      or_else i.action_reason (reached_reason score i.block_threshold),
      or_else i.enforcement_source "score_threshold",
    )
    else (
      "allow",
      or_else i.action_reason (below_reason score i.block_threshold),
      or_else i.enforcement_source "score_threshold",
    )

-- `raw_verdict` after the comparison of the given verdict with the derived one
unfoldable pub settle_raw_verdict : String → String → String
unfolding normalize_verdict
settle_raw_verdict raw derived_code =
    let (input_code, input_label) = normalize_verdict raw in
    if not (input_code == "unknown") && not (input_code == derived_code)
    then or_else raw input_label
    else raw

unfoldable pub failed_decision : Input → ℕ → String → FinalDecision
failed_decision i score raw = record {
  score = score;
  verdict_code = "unknown";
  verdict_label = "Unknown";
  action = "allow";
  action_reason = or_else i.action_reason "Scan failed; automatic blocking is disabled.";
  enforcement_source = or_else i.enforcement_source "scan_error";
  enforcement_threshold = i.block_threshold;
  confidence = confidence_of i.confidence;
  override_type = i.override_type;
  triggered_rule = first_or_empty i.triggered_rules;
  triggered_rules = i.triggered_rules;
  policy = i.policy;
  raw_verdict = raw;
}

unfoldable pub completed_decision : Input → ℕ → String → FinalDecision
unfolding choose_action
completed_decision i score raw =
    let (code, label) = score_band i.policy score in
    let (action, reason, source) = choose_action i score in
    record {
      score = score;
      verdict_code = code;
      verdict_label = label;
      action = action;
      action_reason = reason;
      enforcement_source = source;
      enforcement_threshold = i.block_threshold;
      confidence = confidence_of i.confidence;
      override_type = i.override_type;
      triggered_rule = first_or_empty i.triggered_rules;
      triggered_rules = i.triggered_rules;
      policy = i.policy;
      raw_verdict = settle_raw_verdict raw code;
    }

unfoldable pub build_final_decision : Input → FinalDecision
unfolding failed_decision completed_decision
build_final_decision i =
    let score = clamp_score (coerce_int i.score (pos 0)) in
    let raw = strip (str_or_empty i.verdict) in
    if i.scan_failed then failed_decision i score raw else completed_decision i score raw

-- `FinalDecision.to_dict`
unfoldable pub to_dict : FinalDecision → Dict Value
to_dict d =
    ("score", int (pos d.score))
    ∷ ("verdict_code", text d.verdict_code)
    ∷ ("verdict_label", text d.verdict_label)
    ∷ ("action", text d.action)
    ∷ ("action_reason", text d.action_reason)
    ∷ ("enforcement_source", text d.enforcement_source)
    ∷ ("enforcement_threshold", int d.enforcement_threshold)
    ∷ ("confidence", elim d.confidence [ none ↦ null | some z ↦ int z ])
    ∷ ("override_type", text d.override_type)
    ∷ ("triggered_rule", text d.triggered_rule)
    ∷ ("triggered_rules", list_value d.triggered_rules)
    ∷ ("policy", text d.policy)
    ∷ ("raw_verdict", text d.raw_verdict)
    ∷ []
