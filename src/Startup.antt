-- ===== src/Startup.antt =====
-- backend/core/startup_orchestrator.py: the tasks and phases of the start of the application.
-- The children: the tasks that are counted (Tasks), the phases (Phases), when the start counts as
-- complete (Completion), and what is known of a phase (Status).
pub mod Tasks
pub mod Phases
pub mod Completion
pub mod Status
mod Tests
use graduationp.Prelude.{ℕ, Bool, String, List, [], Option, none}
use graduationp.Prelude.Dict.{Dict}

-- The signals of `StartupOrchestrator`.
pub data Signal : Type 0 where
  startup_complete : Signal
  phase_started : String → Signal
  phase_completed : String → Signal
  phase_failed : String → String → Signal
  task_completed : String → Signal
  task_failed : String → String → Signal

-- The state of `StartupOrchestrator`, and the signals emitted so far, the latest first.
-- `phase_timers` says of each timer whether it is still running.
pub record Orchestrator : Type 0 where
  pub tasks_completed : ℕ
  pub tasks_failed : ℕ
  pub tasks_timeout : ℕ
  pub total_tasks : ℕ
  pub task_names : List String
  pub current_phase : Option String
  pub phase_timers : Dict Bool
  pub phase_success : Dict Bool
  pub emitted : List Signal

-- `__init__`
abbrev pub initial : Orchestrator
initial = record {
  tasks_completed = 0;
  tasks_failed = 0;
  tasks_timeout = 0;
  total_tasks = 0;
  task_names = [];
  current_phase = none;
  phase_timers = [];
  phase_success = [];
  emitted = [];
}
