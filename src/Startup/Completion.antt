-- ===== src/Startup/Completion.antt =====
-- When backend/core/startup_orchestrator.py reports that the start is complete.
use mathlib.Core.Path.{subst, sym, ◌∙◌, ap}
use graduationp.Prelude.Dict.{has_key}
use graduationp.Prelude.{
  ap, ◌∙◌, ltb, ◌&&◌, leb, none, if_cases, some, ℕ, suc, ◌+◌, ◌<◌, Bool, true, false, String, List,
  [], ◌∷◌, Option, length, ◌==ℕ◌, if◌then◌else◌, ◌≡◌, refl, arith,
}
use graduationp.Startup.{Signal, Orchestrator, initial}
use graduationp.Startup.Tasks.{
  emit, passed_on, count, is_current, TaskSignal, schedule_immediate, schedule_deferred,
  execute_deferred, schedule_background, on_task, reported, check_completion,
}
use graduationp.Startup.Phases.{
  phase_timeouts, is_armed, start_phase, end_phase, time_passes, on_phase_timeout,
}

-- The states that the calls and timers lead to, with the number of the background tasks that have not
-- reported yet, and the number of the reports too many: a task that timed out goes on, and reports
-- again when it ends.
pub data Reachable : ℕ → ℕ → Orchestrator → Type 0 where
  start : Reachable 0 0 initial
  immediate :
      (name : String) (raised : Option String) (n late : ℕ) (o : Orchestrator)
      → Reachable n late o
      → Reachable n late (schedule_immediate name raised o)
  deferred :
      (name : String) (n late : ℕ) (o : Orchestrator)
      → Reachable n late o
      → Reachable n late (schedule_deferred name o)
  executed :
      (name : String) (raised : Option String) (n late : ℕ) (o : Orchestrator)
      → Reachable n late o
      → Reachable n late (execute_deferred name raised o)
  background :
      (name : String) (n late : ℕ) (o : Orchestrator)
      → Reachable n late o
      → Reachable (suc n) late (schedule_background name o)
  report :
      (name : String) (s : TaskSignal) (n late : ℕ) (o : Orchestrator)
      → Reachable (suc n) late o
      → Reachable n late (on_task name s o)
  again :
      (name : String) (s : TaskSignal) (n late : ℕ) (o : Orchestrator)
      → Reachable n late o
      → Reachable n (suc late) (on_task name s o)
  phase_start :
      (phase : String) (n late : ℕ) (o : Orchestrator)
      → Reachable n late o
      → Reachable n late (start_phase phase o)
  phase_end :
      (phase : String) (success : Bool) (n late : ℕ) (o : Orchestrator)
      → Reachable n late o
      → Reachable n late (end_phase phase success o)
  phase_due :
      (phase : String) (n late : ℕ) (o : Orchestrator)
      → Reachable n late o
      → Reachable n late (time_passes phase o)

-- how often startupComplete was emitted
unfoldable pub completions : List Signal → ℕ
completions [] = 0
completions (Signal.startup_complete ∷ signals) = suc (completions signals)
completions (_ ∷ signals) = completions signals

-- the tasks that the counters know of
abbrev counters : Orchestrator → ℕ × ℕ
counters o = (reported o, o.total_tasks)

immediate-counters :
    (name : String) (raised : Option String) (o : Orchestrator)
    → counters (schedule_immediate name raised o) ≡ counters o
unfolding schedule_immediate
immediate-counters name none o = refl
immediate-counters name (some e) o =
    if_cases (λ p. counters p ≡ counters o) (is_current "critical" o) refl refl

executed-counters :
    (name : String) (raised : Option String) (o : Orchestrator)
    → counters (execute_deferred name raised o) ≡ counters o
unfolding execute_deferred
executed-counters name none o = refl
executed-counters name (some e) o = refl

start_phase-counters :
    (phase : String) (o : Orchestrator) → counters (start_phase phase o) ≡ counters o
unfolding start_phase
start_phase-counters phase o =
    if_cases (λ p. counters p ≡ counters o) (has_key phase phase_timeouts) refl refl

end_phase-counters :
    (phase : String) (success : Bool) (o : Orchestrator)
    → counters (end_phase phase success o) ≡ counters o
unfolding end_phase
end_phase-counters phase true o = refl
end_phase-counters phase false o = refl

time_passes-counters :
    (phase : String) (o : Orchestrator) → counters (time_passes phase o) ≡ counters o
unfolding time_passes on_phase_timeout
time_passes-counters phase o = if_cases (λ p. counters p ≡ counters o) (is_armed phase o) refl refl

check-counters : (o : Orchestrator) → counters (check_completion o) ≡ counters o
unfolding check_completion
check-counters o =
    if_cases (λ p. counters p ≡ counters o) (leb o.total_tasks (reported o) && ltb 0 o.total_tasks)
      refl refl

count-reported :
    (s : TaskSignal) (o : Orchestrator)
    → (reported (count s o) ≡ suc (reported o)) × ((count s o).total_tasks ≡ o.total_tasks)
unfolding count
count-reported TaskSignal.completed o = (omega arith, refl)
count-reported (TaskSignal.failed error) o = (omega arith, refl)
count-reported TaskSignal.timeout o = (omega arith, refl)

abbrev Accounted : ℕ → ℕ → ℕ × ℕ → Type 0
Accounted n late c = c.0 + n ≡ c.1 + late

report-Accounted :
    (name : String) (s : TaskSignal) (n late : ℕ) (o : Orchestrator)
    → Accounted (suc n) late (counters o)
    → Accounted n late (counters (on_task name s o))
unfolding on_task
report-Accounted name s n late o before =
    subst (Accounted n late) (sym (check-counters (emit (passed_on name s) (count s o))))
      (omega (arith, count-reported s o, before))

again-Accounted :
    (name : String) (s : TaskSignal) (n late : ℕ) (o : Orchestrator)
    → Accounted n late (counters o)
    → Accounted n (suc late) (counters (on_task name s o))
unfolding on_task
again-Accounted name s n late o before =
    subst (Accounted n (suc late)) (sym (check-counters (emit (passed_on name s) (count s o))))
      (omega (arith, count-reported s o, before))

-- In every reachable state the reports and the tasks that have not reported are the background tasks
-- that were scheduled and the reports too many.
Reachable-accounted :
    (n late : ℕ) (o : Orchestrator) → Reachable n late o → reported o + n ≡ o.total_tasks + late
unfolding schedule_deferred schedule_background
Reachable-accounted _ _ _ start = refl
Reachable-accounted _ _ _ (immediate name raised n late o r) =
    subst (Accounted n late) (sym (immediate-counters name raised o))
      (Reachable-accounted n late o r)
Reachable-accounted _ _ _ (deferred name n late o r) = Reachable-accounted n late o r
Reachable-accounted _ _ _ (executed name raised n late o r) =
    subst (Accounted n late) (sym (executed-counters name raised o))
      (Reachable-accounted n late o r)
Reachable-accounted _ _ _ (background name n late o r) =
    omega (arith, Reachable-accounted n late o r)
Reachable-accounted _ _ _ (report name s n late o r) =
    report-Accounted name s n late o (Reachable-accounted (suc n) late o r)
Reachable-accounted _ _ _ (again name s n late o r) =
    again-Accounted name s n late o (Reachable-accounted n late o r)
Reachable-accounted _ _ _ (phase_start phase n late o r) =
    subst (Accounted n late) (sym (start_phase-counters phase o)) (Reachable-accounted n late o r)
Reachable-accounted _ _ _ (phase_end phase success n late o r) =
    subst (Accounted n late) (sym (end_phase-counters phase success o))
      (Reachable-accounted n late o r)
Reachable-accounted _ _ _ (phase_due phase n late o r) =
    subst (Accounted n late) (sym (time_passes-counters phase o)) (Reachable-accounted n late o r)

completions-passed_on :
    (name : String) (s : TaskSignal) (o : Orchestrator)
    → completions (passed_on name s ∷ (count s o).emitted) ≡ completions o.emitted
unfolding passed_on count completions
completions-passed_on name TaskSignal.completed o = refl
completions-passed_on name (TaskSignal.failed error) o = refl
completions-passed_on name TaskSignal.timeout o = refl

check-completions :
    (o : Orchestrator) (n : ℕ)
    → reported o + n ≡ o.total_tasks
    → 0 < reported o
    → completions (check_completion o).emitted ≡ completions o.emitted + (if n ==ℕ 0 then 1 else 0)
unfolding check_completion completions
check-completions o n accounted some_reported = ground arith

-- In every state with no report too many, the report of an outstanding background task emits startupComplete
-- exactly if it is the last one outstanding, and then once.
complete_iff_last :
    (name : String) (s : TaskSignal) (n : ℕ) (o : Orchestrator)
    → Reachable (suc n) 0 o
    → completions (on_task name s o).emitted ≡ completions o.emitted + (if n ==ℕ 0 then 1 else 0)
unfolding on_task
complete_iff_last name s n o r =
    let counted = emit (passed_on name s) (count s o) in
    check-completions counted n
      (omega (arith, count-reported s o, Reachable-accounted (suc n) 0 o r))
      (omega (arith, count-reported s o))
    ∙ ap (λ c. c + (if n ==ℕ 0 then 1 else 0)) (completions-passed_on name s o)

-- the reports of some tasks, one after the other
unfoldable pub reports : List (String × TaskSignal) → Orchestrator → Orchestrator
reports [] o = o
reports ((name, s) ∷ rest) o = reports rest (on_task name s o)

-- In a state with no report too many (no task that timed out has reported again so far), once every
-- background task that is outstanding has reported once, in whatever order and with whatever outcome,
-- startupComplete was emitted exactly once since.
pub all_reports_complete :
    (rest : List (String × TaskSignal)) (o : Orchestrator)
    → Reachable (length rest) 0 o
    → 0 < length rest
    → completions (reports rest o).emitted ≡ suc (completions o.emitted)
unfolding reports
all_reports_complete [] o r some_left = ground arith
all_reports_complete ((name, s) ∷ []) o r some_left = omega (arith, complete_iff_last name s 0 o r)
all_reports_complete ((name, s) ∷ x ∷ rest) o r some_left =
    let later =
      all_reports_complete (x ∷ rest) (on_task name s o)
        (Reachable.report name s (length (x ∷ rest)) 0 o r) (omega arith) in
    ground (arith, later, complete_iff_last name s (suc (length rest)) o r)
