-- ===== src/ActionLog/Tests.antt =====
-- Runs of backend/engines/ai/action_record.py, and each theorem about it at an input.
use graduationp.Prelude.{ℕ, [], none, some, ◌≡◌, refl, show_nat}
use graduationp.ActionLog.{ActionType, ActionOutcome, ResolutionSession, Stamp}
use graduationp.ActionLog.Log.{ActionLog, Report, empty, end_session, start_session, log_action}
use graduationp.ActionLog.History.{Call, step, Reachable, WellFormed, Reachable-Consistent}
use graduationp.ActionLog.Record.{session_to_dict, session_from_dict}
use graduationp.ActionLog.RoundTrip.{session_round_trip}

abbrev stamp : ℕ → Stamp
stamp n = record { new_id = show_nat n; now = "2026-01-01T09:30:00" }

abbrev scan_report : Report
scan_report = record {
  action_type = ActionType.scan;
  description = "Quick scan";
  input_data = [];
  output_data = [];
  outcome = ActionOutcome.failed;
  duration_ms = 12;
  error = some "no engine";
}

-- an action without a session, and the end of the session that it started
abbrev logged : ActionLog
logged = step (Call.logs (stamp 1) (stamp 2) scan_report) empty

abbrev ended : ActionLog
ended = step (Call.ends (stamp 3) "") logged

ended-Reachable : Reachable ended
ended-Reachable =
    Reachable.next (Call.ends (stamp 3) "") logged
      (Reachable.next (Call.logs (stamp 1) (stamp 2) scan_report) empty Reachable.start)

Reachable-Consistent_example : WellFormed ended
Reachable-Consistent_example = Reachable-Consistent ended ended-Reachable

-- A session that is open when the next one starts never reaches the history.
lost :
    (step (Call.ends (stamp 5) "") (step (Call.starts (stamp 4) none none none) logged)).sessions
    ≡ (end_session (stamp 5) "" (start_session (stamp 4) none none none empty)).0.sessions
unfolding step end_session start_session log_action
lost = refl

abbrev session : ResolutionSession
session = record {
  session_id = "42";
  event_id = some 4625;
  event_source = none;
  event_summary = none;
  started_at = "2026-01-01T09:30:00";
  ended_at = none;
  status = "in_progress";
  actions = [];
  summary = "";
}

session_round_trip_example :
    session_from_dict (stamp 0) stamp (session_to_dict session) ≡ some session
session_round_trip_example = session_round_trip (stamp 0) stamp session
