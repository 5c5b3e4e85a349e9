-- ===== src/Rtp/Scan.antt =====
-- `_scan_process_decision` and `_probe_windows_signature` of backend/core/realtime_protection.py.
use Prim.Native.Char.{code}
use Prim.Native.String.{[], ◌∷◌}
use graduationp.Prelude.{
  Bool, true, false, ◌&&◌, ◌||◌, not, String, ◌==◌, List, Option, none, some, ◌==ℕ◌, is_some, strip,
  lower, elem, if◌then◌else◌, pos,
}
use graduationp.Prelude.Dict.{Dict}
use graduationp.Value.{Value, int, text, get, truthy, str_or_empty, is_text}
use graduationp.Decision.{build_final_decision, to_dict, default_block_threshold}
use graduationp.Decision.Rules.{ScanResult}
use graduationp.Decision.Reread.{decision_from_scan_result}
use graduationp.Rtp.Trust.{Host}
use graduationp.Rtp.Plan.{ScanContext}

-- What the static scanner hands back. `signature_valid` and `subject` are two entries of its
-- `signature`, and `list_error` is the text of the error that its stored rules raise where they
-- cannot be listed.
pub record Scan : Type 0 where
  pub result : ScanResult
  pub sha256 : Value
  pub signature_valid : Option Bool
  pub subject : Value
  pub list_error : String

-- How `scan_file` ends: there is no scanner, it raises, or it returns.
pub data ScanRun : Type 0 where
  unavailable : ScanRun
  fails : String → ScanRun
  returns : Scan → ScanRun

pub data Scanned : Type 0 where
  scan_error : String → Scanned
  scanned : Dict Value → String → ScanContext → Scanned

-- `output.split("|", 1)`, none where there is no "|"
unfoldable pub split_bar : String → Option (String × String)
split_bar [] = none
split_bar (c ∷ s) =
    let rest = split_bar s in
    if code c ==ℕ b'|'
    then some ("", s)
    else elim rest [ none ↦ none | some (before, after) ↦ some (c ∷ before, after) ]

abbrev unsigned_states : List String
unsigned_states =
    List.◌∷◌ "notsigned" (List.◌∷◌ "unknownerror" (List.◌∷◌ "notsupportedfileformat" List.[]))

-- what `_probe_windows_signature` makes of the output
unfoldable pub parse_authenticode : String → Option Bool × String
unfolding split_bar strip lower elem
parse_authenticode output = elim (split_bar (strip output)) [
  | none ↦ (none, "")
  | some (status, subject) ↦
      if lower (strip status) == "valid"
      then (some true, strip subject)
      else if elem (lower (strip status)) unsigned_states
      then (none, strip subject)
      else (some false, strip subject)
]

unfoldable pub probe_windows_signature : Host → String → Option Bool × String
unfolding parse_authenticode
probe_windows_signature h path =
    if not h.platform.is_windows
    then (none, "")
    else elim (h.authenticode path) [ none ↦ (none, "") | some output ↦ parse_authenticode output ]

-- `_build_final_decision(score=0, verdict="Unknown", policy="static", scan_failed=True, ...)`
unfoldable pub failed_scan : String → String → Dict Value
unfolding build_final_decision to_dict
failed_scan reason source = to_dict (
    build_final_decision (record {
      score = int (pos 0);
      verdict = text "Unknown";
      confidence = Value.null;
      policy = "static";
      block_threshold = default_block_threshold;
      triggered_rules = List.[];
      scan_failed = true;
      explicit_action = "";
      override_type = "";
      action_reason = reason;
      enforcement_source = source;
    }))

abbrev pub empty_context : Host → String → ScanContext
empty_context h path = record {
  signature_valid = none;
  publisher = "";
  strong_evidence = false;
  fingerprint = h.fingerprint path;
  parent_pid = none;
}

-- The signature and the publisher, with the probe where the scanner could not tell.
unfoldable pub settle_signature :
    Host → String → Dict Value → Option Bool → String → Option Bool × String
unfolding probe_windows_signature is_text get
settle_signature h path decision valid publisher =
    let (probed_valid, probed) = probe_windows_signature h path in
    if h.platform.is_windows
      && is_text "block" (get "action" decision)
      && not (is_some valid)
      && (is_some probed_valid || not (probed == ""))
    then (probed_valid, if publisher == "" then probed else publisher)
    else (valid, publisher)

unfoldable pub scan_context_of : Host → String → Dict Value → Scan → ScanContext
unfolding settle_signature is_text get truthy str_or_empty
scan_context_of h path decision scan =
    let (valid, publisher) =
      settle_signature h path decision scan.signature_valid (str_or_empty scan.subject) in
    record {
      signature_valid = valid;
      publisher = publisher;
      strong_evidence =
          truthy (get "infected" scan.result.clamav)
          || is_text "explicit_override" (get "enforcement_source" decision)
          || truthy (get "override_type" decision);
      fingerprint = h.fingerprint path;
      parent_pid = none;
    }

unfoldable pub scan_process_decision : Host → String → ScanRun → Scanned
unfolding failed_scan decision_from_scan_result scan_context_of to_dict str_or_empty
scan_process_decision h path unavailable =
    scanned (failed_scan "Static scanner unavailable; process allowed." "scanner_unavailable") ""
      (empty_context h path)
scan_process_decision h path (fails why) = scan_error why
scan_process_decision h path (returns scan) =
    elim (decision_from_scan_result scan.result "static" default_block_threshold) [
      | none ↦ scan_error scan.list_error
      | some d ↦
          scanned (to_dict d) (str_or_empty scan.sha256) (scan_context_of h path (to_dict d) scan)
    ]
