-- ===== src/Correlation/Tests.antt =====
-- Runs of backend/engines/ai/knowledge/soc_correlation.py, and each theorem about it at an input.
use graduationp.Correlation.{total_score, level_of, Event, EventScore, ThreatLevel, threat_level}
use graduationp.Value.{truthy, to_str, show_int, Value}
use graduationp.Correlation.Engine.{
  scored, id_of, base_score_of, find, is_in, applies_to, sum_factors, adjustment, adjusted, add_to,
  check_pattern, count_related, is_related, score_event, pattern_of,
}
use graduationp.Correlation.Factors.{
  field_of, network_login, admin_account, after_hours, external_ip, first_user, is_admin, Context,
  is_public,
}
use graduationp.Prelude.Dict.{lookup}
use graduationp.Prelude.{
  starts_with, lower, contains_text, show_nat, true, false, List, [], ◌∷◌, none, some, is_some, ◌≡◌,
  refl, pos,
}
use graduationp.Correlation.Critical.{critical_alone, FullFailure}
use graduationp.Correlation.Related.{related_only_raise, Higher, score_event_returns, readable}

abbrev failed_logon : Event
failed_logon = record {
  snake_id = some 4625;
  camel_id = none;
  fields =
      ("LogonType", Value.int (pos 3))
      ∷ ("TargetUserName", Value.text "Administrator")
      ∷ ("IpAddress", Value.text "203.0.113.9")
      ∷ [];
}

abbrev at_night : Context
at_night = ("is_after_hours", Value.bool true) ∷ []

abbrev full_score : EventScore
full_score = record {
  event_id = 4625;
  base_score = pos 25;
  context_score = pos 55;
  pattern_score = pos 0;
}

abbrev logon : Event
logon = record { snake_id = none; camel_id = some 4624; fields = [] }

abbrev five : List Event
five = logon ∷ logon ∷ logon ∷ logon ∷ logon ∷ []

abbrev no_name : Event
no_name = record logon { fields = ("SubjectUserName", Value.null) ∷ [] }

is_scored : score_event failed_logon [] at_night ≡ some full_score
unfolding score_event scored sum_factors add_to adjustment adjusted applies_to is_in id_of
    network_login admin_account is_admin first_user truthy field_of lookup after_hours external_ip
    is_public starts_with lower contains_text to_str show_int show_nat base_score_of find pattern_of
is_scored = refl

is_critical : threat_level full_score ≡ ThreatLevel.critical
unfolding threat_level level_of total_score
is_critical = refl

-- a public address that counts as private
not_public : is_public (Value.text "172.200.0.1") ≡ some false
unfolding is_public starts_with
not_public = refl

pattern_counts : pattern_of 4625 five ≡ 30
unfolding pattern_of check_pattern count_related is_related id_of is_in find
pattern_counts = refl

critical_alone_example : FullFailure failed_logon at_night full_score
critical_alone_example = critical_alone failed_logon at_night full_score is_scored is_critical

related_only_raise_example : Higher (score_event failed_logon five at_night) full_score
related_only_raise_example = related_only_raise failed_logon [] five at_night full_score is_scored

score_event_returns_example : is_some (score_event no_name five []) ≡ readable no_name
score_event_returns_example = score_event_returns no_name five []
