-- ===== src/Session/Run.antt =====
-- `start`, `add_event`, the batches and `stop` of backend/engines/scanning/sandbox_session.py.
use graduationp.Prelude.{
  suc, Bool, true, false, ◌&&◌, String, ◌==◌, List, [], ◌∷◌, ◌++◌, Option, none, some, is_some,
  length, elem, ltb, if◌then◌else◌,
}
use graduationp.Prelude.Float.{Float}
use graduationp.Session.EventType
use graduationp.Session.{SandboxEvent, SessionStats, LogLine, SandboxSession}

abbrev no_stats : SessionStats
no_stats = record {
  running_time_seconds = record { numerator = 0; exponent = 0 };
  processes_spawned = 0;
  files_touched = 0;
  registry_changes = 0;
  network_attempts = 0;
  suspicious_behaviors = 0;
  current_action = "Initializing";
  is_running = false;
}

-- `__init__`, with the id that was given or made
unfoldable pub new : String → Bool → Bool → SandboxSession
new session_id has_callback has_stats_callback = record {
  session_id = session_id;
  has_callback = has_callback;
  has_stats_callback = has_stats_callback;
  start_time = none;
  end_time = none;
  sample_path = none;
  sample_hash = none;
  is_running = false;
  was_cancelled = false;
  events = [];
  queue = [];
  handed = [];
  stats = no_stats;
  log = none;
}

-- `start`
unfoldable pub start : String → String → Option String → SandboxSession → SandboxSession
start now sample_path sample_hash s = record s {
  start_time = some now;
  sample_path = some sample_path;
  sample_hash = sample_hash;
  is_running = true;
  stats = record s.stats { is_running = true; current_action = "Launching sample" };
  log = some (LogLine.session_start sample_path sample_hash ∷ []);
}

abbrev pub file_types : List String
file_types = EventType.file_create ∷ EventType.file_modify ∷ EventType.file_delete ∷ []

abbrev pub registry_types : List String
registry_types = EventType.registry_create ∷ EventType.registry_modify ∷ []

abbrev pub network_types : List String
network_types = EventType.network_connect ∷ EventType.network_blocked ∷ []

abbrev pub suspicious_types : List String
suspicious_types = EventType.suspicious_behavior ∷ EventType.persistence_attempt ∷ []

-- the branches of `_update_stats`, by their tests
unfoldable pub branches :
    (process file registry network suspicious : Bool) → SessionStats → SessionStats
branches process file registry network suspicious st =
    if process
    then record st { processes_spawned = suc st.processes_spawned }
    else if file
    then record st { files_touched = suc st.files_touched }
    else if registry
    then record st { registry_changes = suc st.registry_changes }
    else if network
    then record st { network_attempts = suc st.network_attempts }
    else if suspicious
    then record st { suspicious_behaviors = suc st.suspicious_behaviors }
    else st

unfoldable pub count_event : String → SessionStats → SessionStats
count_event t st =
    branches (t == EventType.process_start) (elem t file_types) (elem t registry_types)
      (elem t network_types) (elem t suspicious_types) st

-- `_update_stats`, with the seconds since the start
unfoldable pub update_stats : Float → Bool → SandboxEvent → SessionStats → SessionStats
update_stats seconds has_started e st =
    count_event e.event_type
      (if has_started then record st { running_time_seconds = seconds } else st)

-- a line more, where the file is open and the write succeeds
unfoldable pub write_line : Bool → LogLine → Option (List LogLine) → Option (List LogLine)
write_line succeeds line none = none
write_line succeeds line (some lines) = if succeeds then some (lines ++ line ∷ []) else some lines

-- what `add_event` does in a running session; `written` says that the write of the line raises nothing
unfoldable pub record_event : Float → Bool → SandboxEvent → SandboxSession → SandboxSession
record_event seconds written e s = record s {
  queue = s.queue ++ e ∷ [];
  log = write_line written (LogLine.event_line e) s.log;
  events = s.events ++ e ∷ [];
  stats = update_stats seconds (is_some s.start_time) e s.stats;
}

-- `add_event`
unfoldable pub add_event : Float → Bool → SandboxEvent → SandboxSession → SandboxSession
add_event seconds written e s = if s.is_running then record_event seconds written e s else s

-- The queue is emptied into one batch, which goes to the callback where it is not empty.
unfoldable pub hand_over : SandboxSession → SandboxSession
hand_over s = record s {
  queue = [];
  handed = if ltb 0 (length s.queue) && s.has_callback then s.handed ++ s.queue ∷ [] else s.handed;
}

-- one round of `_batch_loop`
unfoldable pub batch_round : Float → SandboxSession → SandboxSession
batch_round seconds s =
    let h = hand_over s in
    if s.has_stats_callback && is_some s.start_time
    then record h { stats = record h.stats { running_time_seconds = seconds } }
    else h

-- `SandboxEvent(event_type=..., timestamp=..., description=...)`
abbrev pub status_event : String → String → String → SandboxEvent
status_event event_id timestamp action = record {
  event_type = EventType.status_update;
  timestamp = timestamp;
  pid = none;
  parent_pid = none;
  process_name = none;
  command_line = none;
  exit_code = none;
  file_path = none;
  file_size = none;
  file_hash = none;
  registry_key = none;
  registry_value = none;
  registry_data = none;
  remote_address = none;
  remote_port = none;
  protocol = none;
  blocked = false;
  behavior_category = none;
  severity = none;
  description = some action;
  indicators = [];
  event_id = event_id;
}

-- `update_action`
unfoldable pub update_action :
    String → String → Float → Bool → String → SandboxSession → SandboxSession
update_action event_id now seconds written action s =
    add_event seconds written (status_event event_id now action)
      (record s { stats = record s.stats { current_action = action } })

-- `stop`, up to the summary. The thread of the batches has ended when the rest is flushed.
unfoldable pub stop : String → Bool → Bool → SandboxSession → SandboxSession
stop now cancelled written s =
    let stats = record s.stats {
      is_running = false;
      current_action = if cancelled then "Cancelled" else "Completed";
    } in
    hand_over (record s {
      end_time = some now;
      is_running = false;
      was_cancelled = cancelled;
      stats = stats;
      log = write_line written (LogLine.session_end cancelled (length s.events) stats) s.log;
    })
