-- ===== src/Quarantine/Guards.antt =====
-- The guards of backend/engines/scanning/quarantine_manager.py: who asks for a quarantine, how
-- complete the record is, and which requests are refused.
use graduationp.Prelude.{
  Bool, true, false, ◌&&◌, ◌||◌, not, String, ◌==◌, List, [], ◌∷◌, Option, none, some, strip, lower,
  elem, contains_text, any, if◌then◌else◌, ℤ, pos, leb_ℤ,
}
use graduationp.Prelude.Dict.{Dict}
use graduationp.Value.{object, Value, null, bool, int, text, get, truthy, str_or_empty, as_int}
use graduationp.Platform.{Platform, is_windows_system_path, is_trusted_windows_install_path}

pub data Source : Type 0 where
  rtp scan_center manual legacy unknown : Source

-- `str(d.get(k) or "").strip().lower()`
unfoldable pub get_word : String → Dict Value → String
unfolding get str_or_empty strip lower
get_word k d = lower (strip (str_or_empty (get k d)))

abbrev is_empty_dict : Dict Value → Bool
is_empty_dict [] = true
is_empty_dict _ = false

-- `_normalize_source_key`
unfoldable pub normalize_source_key : Dict Value → Source
unfolding elem contains_text get_word
normalize_source_key metadata =
    let raw_source = get_word "enforcement_source" metadata in
    let source_detail = get_word "source_detail" metadata in
    let reason_text = get_word "action_reason" metadata in
    if elem raw_source ("rtp" ∷ "real_time_protection" ∷ [])
    then rtp
    else if elem raw_source ("scan_center" ∷ "scancenter" ∷ [])
    then scan_center
    else if elem raw_source ("manual" ∷ "security_assistant" ∷ "ai_assistant" ∷ [])
    then manual
    else if elem raw_source ("legacy" ∷ "imported" ∷ [])
    then legacy
    else if elem source_detail ("security_assistant" ∷ "manual" ∷ [])
    then manual
    else if contains_text "rtp" reason_text || contains_text "real-time protection" reason_text
    then rtp
    else if contains_text "manual" reason_text || contains_text "security assistant" reason_text
    then manual
    else if is_empty_dict metadata
    then manual
    else unknown

-- the key that the source writes
unfoldable pub source_key : Source → String
source_key rtp = "rtp"
source_key scan_center = "scan_center"
source_key manual = "manual"
source_key legacy = "legacy"
source_key unknown = "unknown"

-- `v not in (None, "")`
abbrev is_recorded : Value → Bool
is_recorded null = false
is_recorded (text s) = not (s == "")
is_recorded _ = true

-- `_has_decision_metadata`
unfoldable pub has_decision_metadata : Dict Value → Bool
unfolding get
has_decision_metadata metadata =
    any (λ key. is_recorded (get key metadata))
      ("decision_score" ∷ "decision_verdict" ∷ "decision_action" ∷ [])

pub data Quality : Type 0 where
  legacy_incomplete manual_record complete partial : Quality

abbrev is_legacy : Source → Bool
is_legacy legacy = true
is_legacy _ = false

abbrev is_manual : Source → Bool
is_manual manual = true
is_manual _ = false

-- `_metadata_quality`
unfoldable pub metadata_quality : Source → Dict Value → Quality
unfolding has_decision_metadata truthy
metadata_quality source metadata =
    if is_legacy source
    then legacy_incomplete
    else if is_manual source && not (has_decision_metadata metadata)
    then manual_record
    else if has_decision_metadata metadata
        && truthy (get "file_action" metadata)
        && truthy (get "action_reason" metadata)
        && truthy (get "enforcement_source" metadata)
    then complete
    else if not (has_decision_metadata metadata) && not (truthy (get "action_reason" metadata))
    then legacy_incomplete
    else partial

unfoldable pub quality_key : Quality → String
quality_key legacy_incomplete = "legacy_incomplete"
quality_key manual_record = "manual_record"
quality_key complete = "complete"
quality_key partial = "partial"

-- `_default_action_reason`
unfoldable pub default_action_reason : Source → String
default_action_reason rtp = "Real-time protection quarantined the file after enforcement."
default_action_reason scan_center = "Scan Center quarantine requested after analyst review."
default_action_reason manual = "Manual quarantine requested by the analyst."
default_action_reason legacy = "This legacy quarantine entry predates complete incident metadata."
default_action_reason unknown = "No enforcement reason was recorded for this quarantine entry."

-- `_default_metadata_note`
unfoldable pub default_metadata_note : Source → Quality → String
default_metadata_note source legacy_incomplete =
    "This quarantine record predates complete incident metadata. Score, verdict, and source details were not recorded at quarantine time."
default_metadata_note manual _ =
    "Manual quarantine entry. A file action was recorded, but no scan score or verdict was captured for this action."
default_metadata_note source partial = "This quarantine record has partial incident metadata."
default_metadata_note source _ = ""

-- `v is not False`
abbrev pub is_not_false : Option Bool → Bool
is_not_false (some false) = false
is_not_false _ = true

-- `v is True`
abbrev pub is_true : Option Bool → Bool
is_true (some true) = true
is_true _ = false

-- the words for true and false
unfoldable pub bool_of_word : String → Option Bool
unfolding strip lower elem
bool_of_word s =
    let word = lower (strip s) in
    if elem word ("true" ∷ "1" ∷ "yes" ∷ "y" ∷ [])
    then some true
    else if elem word ("false" ∷ "0" ∷ "no" ∷ "n" ∷ [])
    then some false
    else none

-- `_as_optional_bool`
unfoldable pub as_optional_bool : Value → Option Bool
unfolding truthy bool_of_word
as_optional_bool null = none
as_optional_bool (bool b) = some b
as_optional_bool (int z) = some (truthy (int z))
as_optional_bool (text s) = bool_of_word s
as_optional_bool (object o) = if o.is_float then some o.is_true else bool_of_word o.shown

-- `_as_optional_int`
unfoldable pub as_optional_int : Value → Option ℤ
unfolding as_int
as_optional_int v = as_int v

abbrev asks_by_hand : Source → Bool
asks_by_hand manual = true
asks_by_hand scan_center = true
asks_by_hand unknown = true
asks_by_hand _ = false

abbrev pub is_automatic : Source → Bool
is_automatic rtp = true
is_automatic scan_center = true
is_automatic unknown = true
is_automatic _ = false

-- What a request says, once it is normalised.
pub record Request : Type 0 where
  pub source : Source
  pub decision_score : Option ℤ
  pub decision_verdict : String
  pub decision_action : String
  pub file_action : String
  pub publisher : String
  pub signature_valid : Option Bool
  pub strong_evidence : Bool
  pub allow_protected : Bool
  pub explicit_override : Bool

-- `_should_block_manual_system_quarantine`
unfoldable pub should_block_manual_system_quarantine : Platform → String → Request → Bool
should_block_manual_system_quarantine p path r =
    if not p.is_windows
    then false
    else if r.allow_protected || r.strong_evidence
    then false
    else if not (asks_by_hand r.source)
    then false
    else if not (is_windows_system_path p path)
    then false
    else is_not_false r.signature_valid

-- `_is_protected_trusted_windows_binary`
unfoldable pub is_protected_trusted_windows_binary : Platform → String → Option Bool → Bool
is_protected_trusted_windows_binary p path signature_valid =
    if not p.is_windows
    then false
    else if is_windows_system_path p path
    then is_not_false signature_valid
    else if is_trusted_windows_install_path p path
    then is_true signature_valid
    else false

abbrev pub is_positive : Option ℤ → Bool
is_positive none = false
is_positive (some z) = not (leb_ℤ z (pos 0))

pub data Refusal : Type 0 where
  no_block_decision no_positive_score no_confident_verdict no_quarantine_action : Refusal
  protected_system protected_signed : Refusal

abbrev pub weak_verdicts : List String
weak_verdicts = "" ∷ "unknown" ∷ "safe" ∷ "suspicious" ∷ []

-- `_automatic_quarantine_requires_complete_decision`; `none` is "complete"
unfoldable pub incomplete_decision : Request → Option Refusal
unfolding elem strip lower
incomplete_decision r =
    if not (is_automatic r.source)
    then none
    else if r.explicit_override
    then none
    else if not (r.decision_action == "block")
    then some no_block_decision
    else if not (is_positive r.decision_score)
    then some no_positive_score
    else if elem (lower (strip r.decision_verdict)) weak_verdicts
    then some no_confident_verdict
    else if not (r.file_action == "quarantine_file")
    then some no_quarantine_action
    else none

-- The three guards of `quarantine_file`, in their order.
unfoldable pub refusal : Platform → String → Request → Option Refusal
unfolding incomplete_decision should_block_manual_system_quarantine
    is_protected_trusted_windows_binary
refusal p path r = elim (incomplete_decision r) [
  | some why ↦ some why
  | none ↦
      if should_block_manual_system_quarantine p path r
      then some protected_system
      else if is_protected_trusted_windows_binary p path r.signature_valid
          && not r.allow_protected
          && not r.explicit_override
      then some protected_signed
      else none
]
