-- ===== src/Startup/Tests.antt =====
-- Runs of backend/core/startup_orchestrator.py, and each theorem about it at an input.
use Status.{last_word}
use graduationp.Startup.Status.{is_phase_complete-last, timed_out, started, handle_all}
use graduationp.Startup.Phases.{is_phase_complete}
use graduationp.Prelude.{suc, true, String, List, [], ◌∷◌, ◌≡◌, refl, arith}
use graduationp.Startup.{Orchestrator, initial}
use graduationp.Startup.Tasks.{
  check_completion, passed_on, count, TaskSignal, schedule_background, on_task,
}
use graduationp.Startup.Completion.{all_reports_complete, Reachable, completions, reports}
use graduationp.Startup.Status

-- two background tasks are scheduled
abbrev two : Orchestrator
two = schedule_background "scanners" (schedule_background "gpu" initial)

two-Reachable : Reachable 2 0 two
two-Reachable =
    Reachable.background "scanners" 1 0 _ (Reachable.background "gpu" 0 0 _ Reachable.start)

abbrev both : List (String × TaskSignal)
both = ("scanners", TaskSignal.failed "no driver") ∷ ("gpu", TaskSignal.completed) ∷ []

all_reports_complete_example :
    completions (reports both two).emitted ≡ suc (completions two.emitted)
all_reports_complete_example = all_reports_complete both two two-Reachable (omega arith)

-- A task that reports a timeout and then its end is counted twice: the start counts as complete while
-- the other task has not reported.
counted_twice :
    completions (on_task "gpu" TaskSignal.completed (on_task "gpu" TaskSignal.timeout two)).emitted
    ≡ 1
unfolding schedule_background on_task count passed_on check_completion completions
counted_twice = refl

is_phase_complete-last_example :
    is_phase_complete "critical" (handle_all (started "critical" ∷ timed_out "critical" ∷ []))
    ≡ true
unfolding last_word
is_phase_complete-last_example =
    is_phase_complete-last "critical" (started "critical" ∷ timed_out "critical" ∷ [])
