-- ===== src/Startup/Tasks.antt =====
-- The tasks of backend/core/startup_orchestrator.py: `schedule_immediate`, `schedule_deferred`,
-- `schedule_background`, `StartupTask.run` and the slots that count the tasks.
use graduationp.Prelude.{
  ℕ, suc, ◌+◌, Bool, ◌&&◌, String, ◌==◌, [], ◌∷◌, ◌++◌, Option, none, some, ltb, leb, if◌then◌else◌,
}
use graduationp.Startup.{Signal, Orchestrator}

-- `signal.emit(...)`
abbrev pub emit : Signal → Orchestrator → Orchestrator
emit signal o = record o { emitted = signal ∷ o.emitted }

-- `self._current_phase == phase`
abbrev pub is_current : String → Orchestrator → Bool
is_current phase o = elim o.current_phase [ none ↦ Bool.false | some p ↦ p == phase ]

-- `schedule_immediate`; what the call of the function raises is `some` of its text
unfoldable pub schedule_immediate : String → Option String → Orchestrator → Orchestrator
schedule_immediate name none o = emit (Signal.task_completed name) o
schedule_immediate name (some error) o =
    let failed = emit (Signal.task_failed name error) o in
    if is_current "critical" o then emit (Signal.phase_failed "critical" error) failed else failed

-- `schedule_deferred`, up to the timer
unfoldable pub schedule_deferred : String → Orchestrator → Orchestrator
schedule_deferred name o = record o { task_names = o.task_names ++ name ∷ [] }

-- its `execute`, when the timer is due
unfoldable pub execute_deferred : String → Option String → Orchestrator → Orchestrator
execute_deferred name none o = emit (Signal.task_completed name) o
execute_deferred name (some error) o = emit (Signal.task_failed name error) o

-- `schedule_background`, up to the timer
unfoldable pub schedule_background : String → Orchestrator → Orchestrator
schedule_background name o = record o {
  total_tasks = suc o.total_tasks;
  task_names = o.task_names ++ name ∷ [];
}

-- The signals of `StartupTask`.
pub data TaskSignal : Type 0 where
  completed : TaskSignal
  failed : String → TaskSignal
  timeout : TaskSignal

-- the signal at the end of `StartupTask.run`
unfoldable pub run_task : Option String → TaskSignal
run_task none = TaskSignal.completed
run_task (some error) = TaskSignal.failed error

-- the tasks that were counted
abbrev pub reported : Orchestrator → ℕ
reported o = o.tasks_completed + o.tasks_failed + o.tasks_timeout

-- `_check_completion`
unfoldable pub check_completion : Orchestrator → Orchestrator
check_completion o =
    if leb o.total_tasks (reported o) && ltb 0 o.total_tasks
    then emit Signal.startup_complete o
    else o

-- the counter of a signal
unfoldable pub count : TaskSignal → Orchestrator → Orchestrator
count TaskSignal.completed o = record o { tasks_completed = suc o.tasks_completed }
count (TaskSignal.failed error) o = record o { tasks_failed = suc o.tasks_failed }
count TaskSignal.timeout o = record o { tasks_timeout = suc o.tasks_timeout }

-- what the orchestrator emits for it
unfoldable pub passed_on : String → TaskSignal → Signal
passed_on name TaskSignal.completed = Signal.task_completed name
passed_on name (TaskSignal.failed error) = Signal.task_failed name error
passed_on name TaskSignal.timeout = Signal.task_failed name "Task timeout"

-- `_on_task_completed`, `_on_task_failed` and `_on_task_timeout`
unfoldable pub on_task : String → TaskSignal → Orchestrator → Orchestrator
on_task name s o = check_completion (emit (passed_on name s) (count s o))
