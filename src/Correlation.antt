-- ===== src/Correlation.antt =====
-- backend/engines/ai/knowledge/soc_correlation.py: how grave an entry of the event log is. The
-- children: the tables (Tables), the context factors (Factors), EventScoringEngine (Engine), and
-- what is true of the scores (Lookups, Critical, Related).
pub mod Tables
pub mod Factors
pub mod Engine
pub mod Lookups
pub mod Critical
pub mod Related
mod Tests
use graduationp.Prelude.{ℕ, String, List, Option, ℤ, pos_part, ◌+ℤ◌, leb, if◌then◌else◌, min}
use graduationp.Prelude.Dict.{Dict}
use graduationp.Value.{Value}

pub data ThreatLevel : Type 0 where
  safe low medium high critical : ThreatLevel

pub data AttackPattern : Type 0 where
  brute_force credential_stuffing lateral_movement privilege_escalation : AttackPattern
  persistence defense_evasion data_exfiltration malware_execution : AttackPattern

pub record CorrelationRule : Type 0 where
  pub name : String
  pub description : String
  pub primary_event_id : ℕ
  pub related_event_ids : List ℕ
  pub attack_pattern : Option AttackPattern
  pub count_threshold : ℕ
  pub time_window_minutes : ℕ
  pub match_fields : List String
  pub threat_score_bonus : ℕ

-- An event: what is under "event_id" and under "eventId", where the key is there, and "fields",
-- which is empty where that key is missing.
pub record Event : Type 0 where
  pub snake_id : Option ℕ
  pub camel_id : Option ℕ
  pub fields : Dict Value

pub record EventScore : Type 0 where
  pub event_id : ℕ
  pub base_score : ℤ
  pub context_score : ℤ
  pub pattern_score : ℤ

-- `total_score`: a negative sum counts as 0
unfoldable pub total_score : EventScore → ℕ
total_score s = min 100 (pos_part ((s.base_score +ℤ s.context_score) +ℤ s.pattern_score))

unfoldable pub level_of : ℕ → ThreatLevel
level_of total =
    if leb 80 total
    then ThreatLevel.critical
    else if leb 60 total
    then ThreatLevel.high
    else if leb 40 total
    then ThreatLevel.medium
    else if leb 20 total
    then ThreatLevel.low
    else ThreatLevel.safe

-- `threat_level`
unfoldable pub threat_level : EventScore → ThreatLevel
threat_level s = level_of (total_score s)
