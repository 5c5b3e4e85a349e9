-- ===== src/Session.antt =====
-- backend/engines/scanning/sandbox_session.py: the events of a run in the sandbox.
-- The children: the types of events (EventType), the life of a session (Run), the summary (Summary), and what is true of the batches
-- (Delivery), of the statistics (Counts) and of the groups (Groups).
pub mod EventType
pub mod Run
pub mod Summary
pub mod Delivery
pub mod Counts
pub mod Groups
mod Tests
use graduationp.Prelude.{ℕ, Bool, String, ◌==◌, ◌||◌, List, [], ◌∷◌, Option, none}
use graduationp.Prelude.Dict.{Dict}
use graduationp.Prelude.Float.{Float}
use graduationp.Prelude.{ℤ}

pub record SandboxEvent : Type 0 where
  pub event_type : String
  pub timestamp : String
  pub pid : Option ℕ
  pub parent_pid : Option ℕ
  pub process_name : Option String
  pub command_line : Option String
  pub exit_code : Option ℤ
  pub file_path : Option String
  pub file_size : Option ℕ
  pub file_hash : Option String
  pub registry_key : Option String
  pub registry_value : Option String
  pub registry_data : Option String
  pub remote_address : Option String
  pub remote_port : Option ℕ
  pub protocol : Option String
  pub blocked : Bool
  pub behavior_category : Option String
  pub severity : Option String
  pub description : Option String
  pub indicators : List String
  pub event_id : String

pub record SessionStats : Type 0 where
  pub running_time_seconds : Float
  pub processes_spawned : ℕ
  pub files_touched : ℕ
  pub registry_changes : ℕ
  pub network_attempts : ℕ
  pub suspicious_behaviors : ℕ
  pub current_action : String
  pub is_running : Bool

-- A line of the JSONL file: the header, an event, or the footer with the number of events.
pub data LogLine : Type 0 where
  session_start : String → Option String → LogLine
  event_line : SandboxEvent → LogLine
  session_end : Bool → ℕ → SessionStats → LogLine

-- The state of `SandboxSession`. `handed` are the batches that the event callback was called with,
-- the latest last; `log` is the JSONL file, where it is open.
pub record SandboxSession : Type 0 where
  pub session_id : String
  pub has_callback : Bool
  pub has_stats_callback : Bool
  pub start_time : Option String
  pub end_time : Option String
  pub sample_path : Option String
  pub sample_hash : Option String
  pub is_running : Bool
  pub was_cancelled : Bool
  pub events : List SandboxEvent
  pub queue : List SandboxEvent
  pub handed : List (List SandboxEvent)
  pub stats : SessionStats
  pub log : Option (List LogLine)
