-- ===== src/ActionLog/Log.antt =====
-- `ActionLog` of backend/engines/ai/action_record.py.
use graduationp.Prelude.{
  ℕ, ◌-◌, String, ◌==◌, List, [], ◌∷◌, ◌++◌, Option, none, some, length, drop, ltb, if◌then◌else◌,
}
use graduationp.Prelude.Dict.{Dict}
use graduationp.Value.{Value}
use graduationp.ActionLog.{
  ActionType, ActionOutcome, ActionRecord, ResolutionSession, Stamp, add_action, complete,
}

-- The saved sessions, the latest last, and the one that is open.
pub record ActionLog : Type 0 where
  pub sessions : List ResolutionSession
  pub current_session : Option ResolutionSession

abbrev max_sessions : ℕ
max_sessions = 50

-- `__init__`
abbrev pub empty : ActionLog
empty = record { sessions = []; current_session = none }

-- `ResolutionSession(...)`
abbrev pub new_session : Stamp → Option ℕ → Option String → Option String → ResolutionSession
new_session stamp event_id event_source event_summary = record {
  session_id = stamp.new_id;
  event_id = event_id;
  event_source = event_source;
  event_summary = event_summary;
  started_at = stamp.now;
  ended_at = none;
  status = "in_progress";
  actions = [];
  summary = "";
}

-- `start_session`. The session that was open is completed, and nothing refers to it any more.
unfoldable pub start_session :
    Stamp → Option ℕ → Option String → Option String → ActionLog → ActionLog
start_session stamp event_id event_source event_summary log = record log {
  current_session = some (new_session stamp event_id event_source event_summary);
}

-- `xs[-n:]` for a list that is longer than `n`
unfoldable pub keep_last : ℕ → List ResolutionSession → List ResolutionSession
keep_last n xs = if ltb n (length xs) then drop (length xs - n) xs else xs

-- `end_session`, with the session that it returns
unfoldable pub end_session : Stamp → String → ActionLog → ActionLog × Option ResolutionSession
end_session stamp summary log = elim log.current_session [
  | none ↦ (log, none)
  | some s ↦ (
    record {
      sessions = keep_last max_sessions (log.sessions ++ complete stamp summary s ∷ []);
      current_session = none;
    },
    some (complete stamp summary s),
  )
]

-- the open session, or a new one
unfoldable pub session_or_new : Stamp → Option ResolutionSession → ResolutionSession
session_or_new stamp none = new_session stamp none none none
session_or_new stamp (some s) = s

-- What the caller of `log_action` says of the action.
pub record Report : Type 0 where
  pub action_type : ActionType
  pub description : String
  pub input_data : Dict Value
  pub output_data : Dict Value
  pub outcome : ActionOutcome
  pub duration_ms : ℕ
  pub error : Option String

abbrev pub action_of : Stamp → Report → ActionRecord
action_of stamp r = record {
  action_id = stamp.new_id;
  session_id = "";
  action_type = r.action_type;
  description = r.description;
  input_data = r.input_data;
  output_data = r.output_data;
  outcome = r.outcome;
  timestamp = stamp.now;
  duration_ms = r.duration_ms;
  error = r.error;
}

-- `log_action`; the first stamp is for a session that is started on the way
unfoldable pub log_action : Stamp → Stamp → Report → ActionLog → ActionLog
log_action for_session for_action r log = record log {
  current_session =
      some (add_action (action_of for_action r) (session_or_new for_session log.current_session));
}

-- `get_session`
unfoldable pub get_session : String → List ResolutionSession → Option ResolutionSession
get_session session_id [] = none
get_session session_id (s ∷ sessions) =
    if s.session_id == session_id then some s else get_session session_id sessions

-- `clear`
unfoldable pub clear : ActionLog → ActionLog
clear log = empty
