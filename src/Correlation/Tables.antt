-- ===== src/Correlation/Tables.antt =====
-- CORRELATION_RULES and EVENT_BASE_SCORES of backend/engines/ai/knowledge/soc_correlation.py.
use graduationp.Prelude.{ℕ, List, [], ◌∷◌, some}
use graduationp.Correlation.{CorrelationRule, AttackPattern}

abbrev failed_login : CorrelationRule
failed_login = record {
  name = "Failed Login Correlation";
  description = "Multiple failed logins followed by success may indicate compromised credentials";
  primary_event_id = 4625;
  related_event_ids = 4624 ∷ 4768 ∷ 4776 ∷ 4771 ∷ [];
  attack_pattern = some AttackPattern.brute_force;
  count_threshold = 5;
  time_window_minutes = 10;
  match_fields = "TargetUserName" ∷ "IpAddress" ∷ [];
  threat_score_bonus = 30;
}

abbrev service_persistence : CorrelationRule
service_persistence = record {
  name = "Service Persistence Check";
  description = "New service installation may indicate malware persistence mechanism";
  primary_event_id = 7045;
  related_event_ids = 4697 ∷ 4688 ∷ 4689 ∷ [];
  attack_pattern = some AttackPattern.persistence;
  count_threshold = 1;
  time_window_minutes = 5;
  match_fields = "ServiceName" ∷ "ImagePath" ∷ [];
  threat_score_bonus = 25;
}

abbrev privilege_check : CorrelationRule
privilege_check = record {
  name = "Privilege Escalation Check";
  description = "Special privileges assigned - check for unusual elevation patterns";
  primary_event_id = 4672;
  related_event_ids = 4624 ∷ 4648 ∷ 4688 ∷ [];
  attack_pattern = some AttackPattern.privilege_escalation;
  count_threshold = 3;
  time_window_minutes = 30;
  match_fields = "SubjectUserName" ∷ "LogonType" ∷ [];
  threat_score_bonus = 20;
}

abbrev defender_detection : CorrelationRule
defender_detection = record {
  name = "Defender Detection Correlation";
  description = "Malware detection - verify remediation was successful";
  primary_event_id = 1116;
  related_event_ids = 1117 ∷ 1118 ∷ 1119 ∷ [];
  attack_pattern = some AttackPattern.malware_execution;
  count_threshold = 1;
  time_window_minutes = 60;
  match_fields = "ThreatName" ∷ "Path" ∷ [];
  threat_score_bonus = 40;
}

abbrev audit_tampering : CorrelationRule
audit_tampering = record {
  name = "Audit Tampering Check";
  description = "Audit policy changes may indicate attempt to hide activity";
  primary_event_id = 4719;
  related_event_ids = 4670 ∷ 4912 ∷ [];
  attack_pattern = some AttackPattern.defense_evasion;
  count_threshold = 1;
  time_window_minutes = 60;
  match_fields = "SubjectUserName" ∷ [];
  threat_score_bonus = 35;
}

abbrev pub correlation_rules : List (ℕ × CorrelationRule)
correlation_rules =
    (4625, failed_login)
    ∷ (7045, service_persistence)
    ∷ (4672, privilege_check)
    ∷ (1116, defender_detection)
    ∷ (4719, audit_tampering)
    ∷ []

abbrev pub event_base_scores : List (ℕ × ℕ)
event_base_scores =
    (4624, 5)
    ∷ (4625, 25)
    ∷ (4634, 5)
    ∷ (4648, 20)
    ∷ (4672, 15)
    ∷ (4688, 5)
    ∷ (4689, 5)
    ∷ (4697, 30)
    ∷ (4719, 45)
    ∷ (4732, 25)
    ∷ (4733, 20)
    ∷ (4768, 10)
    ∷ (4769, 10)
    ∷ (4771, 20)
    ∷ (4776, 15)
    ∷ (7000, 25)
    ∷ (7001, 20)
    ∷ (7009, 15)
    ∷ (7023, 20)
    ∷ (7031, 15)
    ∷ (7034, 25)
    ∷ (7036, 5)
    ∷ (7040, 10)
    ∷ (7045, 30)
    ∷ (41, 35)
    ∷ (42, 5)
    ∷ (1116, 60)
    ∷ (1117, 40)
    ∷ (1118, 30)
    ∷ (1119, 20)
    ∷ (10016, 5)
    ∷ []
