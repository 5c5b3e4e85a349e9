-- ===== src/Decision/Reread.antt =====
-- `decision_from_scan_result` of backend/engines/scanning/decision.py: a final decision from a
-- scan result, or from the final decision that is stored in it.
use graduationp.Prelude.{
  Bool, false, ◌&&◌, Option, none, some, List, [], ◌∷◌, String, ◌==◌, ◌≡◌, ◌≢◌, refl, arith, eq_iff,
  if◌then◌else◌, ap, leb, Bool-cases, inl, inr, leb_ℤ, if_cases, ◌∙◌, strip, ℕ, ℤ, pos,
}
use graduationp.Prelude.Dict.{Dict, lookup}
use graduationp.Value.{
  Value, null, int, text, get, truthy, str_or_empty, to_str, is_given, is_text, list_of, list_value,
}
use graduationp.Decision.{
  FinalDecision, Input, build_final_decision, coerce_int, to_dict, clamp_score, completed_decision,
  choose_action, confidence_of, settle_raw_verdict, score_band, first_band, static_bands,
  scoring_bands,
}
use graduationp.Decision.Rules.{ScanResult, extract_triggered_rules}

-- `_result_value(result, key, default)` of a plain attribute
abbrev result_value : ScanResult → String → Value → Value
result_value r key default = elim (lookup key r.attributes) [ none ↦ default | some v ↦ v ]

unfoldable pub result_failed : ScanResult → Bool
unfolding lookup is_text truthy
result_failed r =
    is_text "Unknown" (result_value r "verdict" (text "")) && truthy (result_value r "errors" null)

-- `existing.get("verdict_label", existing.get("verdict_code"))`
stored_verdict : Dict Value → Value
unfolding lookup
stored_verdict existing = elim (lookup "verdict_label" existing) [
  | none ↦ get "verdict_code" existing
  | some v ↦ v
]

abbrev stored_input : ScanResult → String → ℤ → List String → Input
stored_input r policy threshold rules =
    let existing = r.final_decision in
    record {
      score = get "score" existing;
      verdict = stored_verdict existing;
      confidence = get "confidence" existing;
      policy =
          (let stored = get "policy" existing in if truthy stored then to_str stored else policy);
      block_threshold = coerce_int (get "enforcement_threshold" existing) threshold;
      triggered_rules = rules;
      scan_failed = result_failed r;
      explicit_action =
          if is_text "explicit_override" (get "enforcement_source" existing)
          then str_or_empty (get "action" existing)
          else "";
      override_type = str_or_empty (get "override_type" existing);
      action_reason = str_or_empty (get "action_reason" existing);
      enforcement_source = str_or_empty (get "enforcement_source" existing);
    }

abbrev fresh_input : ScanResult → String → ℤ → Input
fresh_input r policy threshold = record {
  score = result_value r "score" (int (pos 0));
  verdict = result_value r "verdict" (text "Unknown");
  confidence = null;
  policy = policy;
  block_threshold = threshold;
  triggered_rules = extract_triggered_rules r;
  scan_failed = result_failed r;
  explicit_action = "";
  override_type = "";
  action_reason = "";
  enforcement_source = "";
}

-- `none` is the TypeError of a stored `triggered_rules` that cannot be listed.
unfoldable pub decision_from_scan_result : ScanResult → String → ℤ → Option FinalDecision
unfolding get stored_verdict
decision_from_scan_result r policy threshold =
    if is_given (get "score" r.final_decision)
    then elim (list_of (get "triggered_rules" r.final_decision)) [
      | none ↦ none
      | some rules ↦ some (build_final_decision (stored_input r policy threshold rules))
    ]
    else some (build_final_decision (fresh_input r policy threshold))

-- what a scan that stored the decision `d` hands back
abbrev pub storing : ScanResult → FinalDecision → ScanResult
storing r d = record r { final_decision = to_dict d }

str_or_empty-text : (s : String) → str_or_empty (text s) ≡ s
unfolding str_or_empty
str_or_empty-text s = ground (arith, eq_iff s "")

list_of-list_value : (xs : List String) → list_of (list_value xs) ≡ some xs
unfolding list_of list_value
list_of-list_value [] = refl
list_of-list_value (x ∷ xs) = refl

abbrev confidence_value : Option ℤ → Value
confidence_value none = null
confidence_value (some z) = int z

-- the input that a stored decision is read back as
abbrev reread_input : ScanResult → FinalDecision → Input
reread_input r d = record {
  score = int (pos d.score);
  verdict = text d.verdict_label;
  confidence = confidence_value d.confidence;
  policy = d.policy;
  block_threshold = d.enforcement_threshold;
  triggered_rules = d.triggered_rules;
  scan_failed = result_failed r;
  explicit_action = if d.enforcement_source == "explicit_override" then d.action else "";
  override_type = d.override_type;
  action_reason = d.action_reason;
  enforcement_source = d.enforcement_source;
}

stored_input-storing :
    (r : ScanResult) (d : FinalDecision) (policy : String) (threshold : ℤ)
    → d.policy ≢ ""
    → stored_input (storing r d) policy threshold d.triggered_rules ≡ reread_input r d
unfolding get to_dict stored_verdict coerce_int truthy to_str result_failed
stored_input-storing r d policy threshold p = ground (
  arith,
  eq_iff d.policy "",
  str_or_empty-text d.action,
  str_or_empty-text d.override_type,
  str_or_empty-text d.action_reason,
  str_or_empty-text d.enforcement_source,
)

decision_of_stored :
    (r : ScanResult) (d : FinalDecision) (policy : String) (threshold : ℤ)
    → d.policy ≢ ""
    → decision_from_scan_result (storing r d) policy threshold
      ≡ some (build_final_decision (reread_input r d))
unfolding decision_from_scan_result to_dict
decision_of_stored r d policy threshold p =
    rw (list_of-list_value)
      (ap (λ i. some (build_final_decision i)) (stored_input-storing r d policy threshold p))

clamp_score_idem : (z : ℤ) → clamp_score (pos (clamp_score z)) ≡ clamp_score z
unfolding clamp_score
clamp_score_idem z = ground arith

confidence_idem : (v : Value) → confidence_of (confidence_value (confidence_of v)) ≡ confidence_of v
unfolding coerce_int
confidence_idem null = refl
confidence_idem _ = refl

-- the label of a band, read back as a verdict, stays as it is
abbrev Settles : String × String → Type 0
Settles (code, label) = settle_raw_verdict (strip (str_or_empty (text label))) code ≡ label

static-Settles : (n : ℕ) → Settles (first_band n static_bands)
unfolding first_band settle_raw_verdict str_or_empty
static-Settles n = if_cases Settles (leb n 19) refl (if_cases Settles (leb n 59) refl refl)

scoring-Settles : (n : ℕ) → Settles (first_band n scoring_bands)
unfolding first_band settle_raw_verdict str_or_empty
scoring-Settles n =
    if_cases Settles (leb n 20) refl
      (if_cases Settles (leb n 50) refl (if_cases Settles (leb n 80) refl refl))

score_band-Settles : (policy : String) (n : ℕ) → Settles (score_band policy n)
unfolding score_band
score_band-Settles policy n =
    if_cases (λ bands. Settles (first_band n bands)) (policy == "scoring") (scoring-Settles n)
      (static-Settles n)

policy_kept :
    (i : Input) → i.scan_failed ≡ false → i.policy ≢ "" → (build_final_decision i).policy ≢ ""
unfolding build_final_decision
policy_kept i h p = rw h p

coerce_int-int : (z default : ℤ) → coerce_int (int z) default ≡ z
unfolding coerce_int
coerce_int-int z default = refl

-- the stored action, reason and source are chosen again
choose_reread :
    (i j : Input) (n : ℕ)
    → i.explicit_action ≡ ""
    → i.enforcement_source ≡ ""
    → let (action, reason, source) = choose_action i n in
      j.block_threshold ≡ i.block_threshold
      → j.explicit_action ≡ (if source == "explicit_override" then action else "")
      → j.action_reason ≡ reason
      → j.enforcement_source ≡ source
      → choose_action j n ≡ choose_action i n
unfolding choose_action
choose_reread i j n e s =
    rw (e, s)
      (elim (Bool-cases (leb_ℤ i.block_threshold (pos n))) [
        | inl above ↦
            rw above (λ t x r u. rw (t, x, r, u, above) (ground (arith, eq_iff i.action_reason "")))
        | inr below ↦
            rw below (λ t x r u. rw (t, x, r, u, below) (ground (arith, eq_iff i.action_reason "")))
      ])

completed_reread :
    (r : ScanResult) (i : Input) (n : ℕ) (raw : String)
    → i.explicit_action ≡ ""
    → i.enforcement_source ≡ ""
    → let d = completed_decision i n raw in
      completed_decision (reread_input r d) n (strip (str_or_empty (text d.verdict_label)))
      ≡ record d { raw_verdict = d.verdict_label }
unfolding completed_decision
completed_reread r i n raw e s = cc (
  choose_reread i (reread_input r (completed_decision i n raw)) n e s refl refl refl refl,
  confidence_idem i.confidence,
  score_band-Settles i.policy n,
)

build_reread :
    (r : ScanResult) (i : Input)
    → i.scan_failed ≡ false
    → i.explicit_action ≡ ""
    → i.enforcement_source ≡ ""
    → result_failed r ≡ false
    → let d = build_final_decision i in
      build_final_decision (reread_input r d) ≡ record d { raw_verdict = d.verdict_label }
unfolding build_final_decision
build_reread r i h e s f =
    rw (h, f, coerce_int-int, clamp_score_idem)
      (completed_reread r i (clamp_score (coerce_int i.score (pos 0)))
        (strip (str_or_empty i.verdict)) e s)

-- The default decision of a completed scan, stored with its result, is read back unchanged but
-- for `raw_verdict`, which becomes its label: the stored policy, threshold, reason and source
-- win over the policy and the threshold that the reader passes.
pub stored_decision_kept :
    (r : ScanResult) (i : Input) (policy : String) (threshold : ℤ)
    → i.scan_failed ≡ false
    → i.explicit_action ≡ ""
    → i.enforcement_source ≡ ""
    → i.policy ≢ ""
    → result_failed r ≡ false
    → let d = build_final_decision i in
      decision_from_scan_result (storing r d) policy threshold
      ≡ some (record d { raw_verdict = d.verdict_label })
stored_decision_kept r i policy threshold h e s p f =
    decision_of_stored r (build_final_decision i) policy threshold (policy_kept i h p)
    ∙ ap some (build_reread r i h e s f)
