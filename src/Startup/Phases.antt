-- ===== src/Startup/Phases.antt =====
-- The phases of backend/core/startup_orchestrator.py.
use graduationp.Prelude.{ℕ, Bool, true, false, String, ◌∷◌, [], none, some, if◌then◌else◌}
use graduationp.Prelude.Dict.{Dict, lookup, insert, remove, has_key}
use graduationp.Startup.{Signal, Orchestrator}
use graduationp.Startup.Tasks.{emit}

-- in milliseconds
abbrev pub phase_timeouts : Dict ℕ
phase_timeouts = ("critical", 5000) ∷ ("important", 10000) ∷ ("background", 30000) ∷ []

-- `start_phase`
unfoldable pub start_phase : String → Orchestrator → Orchestrator
start_phase phase o =
    let started = emit (Signal.phase_started phase) (record o {
      current_phase = some phase;
      phase_success = insert phase true o.phase_success;
    }) in
    if has_key phase phase_timeouts
    then record started { phase_timers = insert phase true o.phase_timers }
    else started

-- `end_phase`
unfoldable pub end_phase : String → Bool → Orchestrator → Orchestrator
end_phase phase success o =
    let ended = record o {
      phase_success = insert phase success o.phase_success;
      phase_timers = remove phase o.phase_timers;
    } in
    if success
    then emit (Signal.phase_completed phase) ended
    else emit (Signal.phase_failed phase "Phase failed") ended

-- `_on_phase_timeout`
unfoldable pub on_phase_timeout : String → Orchestrator → Orchestrator
on_phase_timeout phase o =
    emit (Signal.phase_failed phase "Phase timeout exceeded")
      (record o { phase_success = insert phase false o.phase_success })

-- the timer of a phase runs
unfoldable pub is_armed : String → Orchestrator → Bool
is_armed phase o = elim (lookup phase o.phase_timers) [ none ↦ false | some running ↦ running ]

-- A timer that is due: it is a single shot, and one that was stopped is silent.
unfoldable pub time_passes : String → Orchestrator → Orchestrator
time_passes phase o =
    if is_armed phase o
    then on_phase_timeout phase (record o { phase_timers = insert phase false o.phase_timers })
    else o

-- `is_phase_complete`
unfoldable pub is_phase_complete : String → Orchestrator → Bool
is_phase_complete phase o = elim (lookup phase o.phase_success) [ none ↦ false | some b ↦ b ]
