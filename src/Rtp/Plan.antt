-- ===== src/Rtp/Plan.antt =====
-- `_build_enforcement_plan` of backend/core/realtime_protection.py.
use graduationp.Prelude.{
  ℕ, Bool, true, false, ◌&&◌, ◌||◌, not, String, ◌==◌, ◌++ˢ◌, List, [], ◌∷◌, Option, none, some,
  strip, lower, elem, if◌then◌else◌, ℤ, pos, leb_ℤ,
}
use graduationp.Prelude.Dict.{Dict}
use graduationp.Value.{text, Value, get, truthy, to_str, str_or_empty, as_int, show_int, list_of}
use graduationp.Rtp.Trust.{
  Host, is_trusted_sentinel_internal_helper, is_trusted_install_path, is_protected_browser_install,
  is_windows_system_path, is_true, is_not_false,
}

pub data ProcessAction : Type 0 where
  allow_process log_only kill_process : ProcessAction

pub data FileAction : Type 0 where
  allow_file quarantine_file delete_file : FileAction

-- What the scan said about the file, and who started the process.
pub record ScanContext : Type 0 where
  pub signature_valid : Option Bool
  pub publisher : String
  pub strong_evidence : Bool
  pub fingerprint : Option (ℕ × ℕ)
  pub parent_pid : Option ℤ

pub record EnforcementPlan : Type 0 where
  pub decision_action : String
  pub process_action : ProcessAction
  pub file_action : FileAction
  pub reason : String
  pub trusted_install : Bool
  pub protected_signed_install : Bool
  pub trusted_internal_helper : Bool
  pub strong_evidence : Bool
  pub publisher : String
  pub signature_valid : Option Bool
  pub fingerprint : Option (ℕ × ℕ)

-- `str(d.get(k) or "").strip().lower()`
unfoldable pub get_word : String → Dict Value → String
unfolding get str_or_empty strip lower
get_word k d = lower (strip (str_or_empty (get k d)))

-- `str(d.get(k) or d.get(j) or last)`
unfoldable pub get_first : String → String → String → Dict Value → String
unfolding get truthy to_str
get_first k j last d =
    if truthy (get k d)
    then to_str (get k d)
    else if truthy (get j d)
    then to_str (get j d)
    else last

-- `int(d.get("score", 0) or 0)`; where `int` raises, the source raises too, and this is 0
unfoldable pub score_of : Dict Value → ℤ
unfolding get truthy as_int
score_of d =
    if truthy (get "score" d)
    then elim (as_int (get "score" d)) [ none ↦ pos 0 | some z ↦ z ]
    else pos 0

-- `_has_explicit_enforcement_override`
unfoldable pub has_explicit_override : Dict Value → Bool
unfolding get_word
has_explicit_override d =
    get_word "enforcement_source" d == "explicit_override" || not (get_word "override_type" d == "")

abbrev pub incomplete_verdicts : List String
incomplete_verdicts = "" ∷ "unknown" ∷ "safe" ∷ "suspicious" ∷ []

-- `verdict_code`, or else `verdict_label`
unfoldable pub verdict_word : Dict Value → String
unfolding get_first strip lower
verdict_word d = lower (strip (get_first "verdict_code" "verdict_label" "" d))

-- `_decision_supports_destructive_enforcement`
unfoldable pub supports_destructive_enforcement : Dict Value → Bool × String
unfolding has_explicit_override elem
supports_destructive_enforcement d =
    if has_explicit_override d
    then (true, "")
    else if not (get_word "action" d == "block")
    then (false, " The final decision does not request blocking.")
    else if leb_ℤ (score_of d) (pos 0)
    then (false, " The final decision is missing a positive threat score.")
    else if elem (verdict_word d) incomplete_verdicts
    then (
      false, " The final decision verdict is incomplete and cannot authorize destructive action.",
    )
    else (true, "")

-- What the plan is decided from.
pub record Facts : Type 0 where
  pub decision_action : String
  pub signature_valid : Option Bool
  pub publisher : String
  pub strong_evidence : Bool
  pub fingerprint : Option (ℕ × ℕ)
  pub trusted_internal_helper : Bool
  pub trusted_install : Bool
  pub explicit_override : Bool
  pub decision_complete : Bool
  pub completeness_reason : String
  pub protected_install : Bool
  pub protected_signed_install : Bool
  -- the diagnostic prefix, and behind it the reason that the decision recorded
  pub prefix : String

show_bool : Bool → String
show_bool b = if b then "True" else "False"

-- `", ".join(...)`
join : List String → String
join [] = ""
join (x ∷ []) = x
join (x ∷ y ∷ xs) = x ++ˢ ", " ++ˢ join (y ∷ xs)

-- the triggered rules, where a text is one rule
abbrev rules_of : Value → Option (List String)
rules_of (text s) = some (if s == "" then [] else s ∷ [])
rules_of v = list_of v

-- where the rules cannot be listed, the source raises, and this is "none"
abbrev rules_text : Option (List String) → String
rules_text none = "none"
rules_text (some []) = "none"
rules_text (some (x ∷ xs)) = join (x ∷ xs)

abbrev signature_text : Option Bool → String → String
signature_text signature publisher =
    if is_true signature && not (publisher == "")
    then "signed by '" ++ˢ publisher ++ˢ "'"
    else if not (is_true signature)
    then "unsigned/unknown signature"
    else "signature unknown"

unfoldable pub diagnostic_prefix : Dict Value → Option Bool → String → Bool → Bool → String
unfolding score_of get_first list_of get show_int show_bool join
diagnostic_prefix d signature publisher trusted_install protected_system =
    "[Score="
    ++ˢ show_int (score_of d)
    ++ˢ "/100 | Verdict="
    ++ˢ get_first "verdict_label" "verdict_code" "Unknown" d
    ++ˢ " | Rules="
    ++ˢ rules_text (rules_of (get "triggered_rules" d))
    ++ˢ " | "
    ++ˢ signature_text signature publisher
    ++ˢ " | trusted_install="
    ++ˢ show_bool trusted_install
    ++ˢ " | system_path="
    ++ˢ show_bool protected_system
    ++ˢ "]"

abbrev pub or_fingerprint : Option (ℕ × ℕ) → Option (ℕ × ℕ) → Option (ℕ × ℕ)
or_fingerprint none b = b
or_fingerprint a b = a

unfoldable pub facts_of : Host → String → String → Dict Value → ScanContext → Facts
unfolding get_first
facts_of h name path d c =
    let trusted_install = is_trusted_install_path h path in
    let complete = supports_destructive_enforcement d in
    let browser = is_protected_browser_install h name path c.publisher c.signature_valid in
    let system = is_windows_system_path h path && is_not_false c.signature_valid in
    let signed = is_true c.signature_valid && trusted_install in
    let any_signed = is_true c.signature_valid && (trusted_install || system) in
    record {
      decision_action = get_first "action" "action" "allow" d;
      signature_valid = c.signature_valid;
      publisher = c.publisher;
      strong_evidence = c.strong_evidence;
      fingerprint = or_fingerprint c.fingerprint (h.fingerprint path);
      trusted_internal_helper = is_trusted_sentinel_internal_helper h name path c.parent_pid;
      trusted_install = trusted_install;
      explicit_override = has_explicit_override d;
      decision_complete = complete.0;
      completeness_reason = complete.1;
      protected_install = browser || system || signed || any_signed;
      protected_signed_install = signed;
      prefix =
          diagnostic_prefix d c.signature_valid c.publisher trusted_install system
          ++ˢ " "
          ++ˢ get_first "action_reason" "action_reason" "No enforcement reason recorded." d;
    }
