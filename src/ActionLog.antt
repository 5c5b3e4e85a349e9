-- ===== src/ActionLog.antt =====
-- backend/engines/ai/action_record.py: the record of the assistant's actions.
-- The children: the log of sessions (Log), what its history holds (History), and the dictionaries that
-- actions and sessions are written to (Record, RoundTrip).
pub mod Log
pub mod History
pub mod Record
pub mod RoundTrip
mod Tests
use graduationp.Prelude.{
  ℕ, suc, ◌+◌, Bool, String, ◌==◌, ◌++ˢ◌, List, [], ◌∷◌, ◌++◌, Option, none, some, length, show_nat,
  if◌then◌else◌, ℤ,
}
use graduationp.Prelude.Dict.{Dict}
use graduationp.Value.{Value}

pub data ActionType : Type 0 where
  explain : ActionType
  scan : ActionType
  check_status : ActionType
  analyze : ActionType
  recommend : ActionType
  resolve : ActionType
  info : ActionType

pub data ActionOutcome : Type 0 where
  success : ActionOutcome
  partial : ActionOutcome
  failed : ActionOutcome
  skipped : ActionOutcome
  pending : ActionOutcome

pub record ActionRecord : Type 0 where
  pub action_id : String
  pub session_id : String
  pub action_type : ActionType
  pub description : String
  pub input_data : Dict Value
  pub output_data : Dict Value
  pub outcome : ActionOutcome
  pub timestamp : String
  pub duration_ms : ℕ
  pub error : Option String

pub record ResolutionSession : Type 0 where
  pub session_id : String
  pub event_id : Option ℕ
  pub event_source : Option String
  pub event_summary : Option String
  pub started_at : String
  pub ended_at : Option String
  pub status : String
  pub actions : List ActionRecord
  pub summary : String

-- A new id, and the clock.
pub record Stamp : Type 0 where
  pub new_id : String
  pub now : String

-- `add_action`: the action takes the id of the session
unfoldable pub add_action : ActionRecord → ResolutionSession → ResolutionSession
add_action a s = record s { actions = s.actions ++ record a { session_id = s.session_id } ∷ [] }

abbrev is_success : ActionOutcome → Bool
is_success ActionOutcome.success = Bool.true
is_success _ = Bool.false

unfoldable pub success_count : List ActionRecord → ℕ
success_count [] = 0
success_count (a ∷ actions) = (if is_success a.outcome then 1 else 0) + success_count actions

-- `_generate_summary`
unfoldable pub generate_summary : List ActionRecord → String
unfolding success_count
generate_summary [] = "No actions performed."
generate_summary (a ∷ actions) =
    "Performed "
    ++ˢ show_nat (length (a ∷ actions))
    ++ˢ " actions ("
    ++ˢ show_nat (success_count (a ∷ actions))
    ++ˢ " successful)"

-- `complete`
unfoldable pub complete : Stamp → String → ResolutionSession → ResolutionSession
complete stamp summary s = record s {
  ended_at = some stamp.now;
  status = "completed";
  summary = if summary == "" then generate_summary s.actions else summary;
}
