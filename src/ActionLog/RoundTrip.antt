-- ===== src/ActionLog/RoundTrip.antt =====
-- The dictionaries of backend/engines/ai/action_record.py read back.
use graduationp.Prelude.Dict.{lookup}
use graduationp.Prelude.{ℕ, suc, List, [], ◌∷◌, Option, none, some, map, ◌≡◌, refl, String}
use graduationp.ActionLog.{ActionRecord, ActionType, ActionOutcome, ResolutionSession, Stamp}
use graduationp.ActionLog.Record.{
  text_or_null, number_or_null, as_text_or_null, as_number_or_null, type_value, outcome_value,
  type_of, outcome_of, action_to_dict, action_from_dict, session_to_dict, session_from_dict,
  actions_from,
}

type_of-value : (t : ActionType) → type_of (type_value t) ≡ some t
unfolding type_of type_value lookup
type_of-value ActionType.explain = refl
type_of-value ActionType.scan = refl
type_of-value ActionType.check_status = refl
type_of-value ActionType.analyze = refl
type_of-value ActionType.recommend = refl
type_of-value ActionType.resolve = refl
type_of-value ActionType.info = refl

outcome_of-value : (o : ActionOutcome) → outcome_of (outcome_value o) ≡ some o
unfolding outcome_of outcome_value lookup
outcome_of-value ActionOutcome.success = refl
outcome_of-value ActionOutcome.partial = refl
outcome_of-value ActionOutcome.failed = refl
outcome_of-value ActionOutcome.skipped = refl
outcome_of-value ActionOutcome.pending = refl

text_or_null-back : (o : Option String) → as_text_or_null (some (text_or_null o)) ≡ some o
text_or_null-back none = refl
text_or_null-back (some s) = refl

number_or_null-back : (o : Option ℕ) → as_number_or_null (some (number_or_null o)) ≡ some o
number_or_null-back none = refl
number_or_null-back (some n) = refl

action_round_trip :
    (stamp : Stamp) (a : ActionRecord) → action_from_dict stamp (action_to_dict a) ≡ some a
unfolding action_from_dict action_to_dict lookup
action_round_trip stamp a =
    rw (type_of-value a.action_type, outcome_of-value a.outcome, text_or_null-back a.error) refl

actions_round_trip :
    (stamps : ℕ → Stamp) (n : ℕ) (actions : List ActionRecord)
    → actions_from stamps n (map action_to_dict actions) ≡ some actions
unfolding actions_from
actions_round_trip stamps n [] = refl
actions_round_trip stamps n (a ∷ actions) =
    rw (action_round_trip (stamps n) a, actions_round_trip stamps (suc n) actions) refl

-- A session that is written to a dictionary with all its actions, and read back, is the same
-- session, whatever the ids and times that stand in for missing keys.
pub session_round_trip :
    (stamp : Stamp) (stamps : ℕ → Stamp) (s : ResolutionSession)
    → session_from_dict stamp stamps (session_to_dict s) ≡ some s
unfolding session_from_dict session_to_dict lookup
session_round_trip stamp stamps s =
    rw
      (
        number_or_null-back s.event_id,
        text_or_null-back s.event_source,
        text_or_null-back s.event_summary,
        text_or_null-back s.ended_at,
        actions_round_trip stamps 0 s.actions,
      )
      refl
