-- ===== src/Startup/Status.antt =====
-- What backend/core/startup_orchestrator.py knows of a phase.
use graduationp.Prelude.{
  ap, ◌∙◌, refl, Bool, true, false, String, ◌==◌, List, [], ◌∷◌, if◌then◌else◌, ◌≡◌, refl, arith,
}
use graduationp.Prelude.Dict.{lookup, lookup-insert}
use graduationp.Startup.{Orchestrator, initial}
use graduationp.Startup.Phases.{start_phase, end_phase, on_phase_timeout, is_phase_complete}

-- A call or a timer that is about a phase.
pub data PhaseEvent : Type 0 where
  started : String → PhaseEvent
  ended : String → Bool → PhaseEvent
  timed_out : String → PhaseEvent

unfoldable pub handle : PhaseEvent → Orchestrator → Orchestrator
handle (started phase) o = start_phase phase o
handle (ended phase success) o = end_phase phase success o
handle (timed_out phase) o = on_phase_timeout phase o

-- some events, the latest first
unfoldable pub handle_all : List PhaseEvent → Orchestrator
handle_all [] = initial
handle_all (e ∷ events) = handle e (handle_all events)

-- what the last event about a phase says: `true` for a start, and for an end with success
unfoldable pub last_word : String → List PhaseEvent → Bool
last_word phase [] = false
last_word phase (started q ∷ events) = if q == phase then true else last_word phase events
last_word phase (ended q success ∷ events) = if q == phase then success else last_word phase events
last_word phase (timed_out q ∷ events) = if q == phase then false else last_word phase events

start_phase_complete :
    (q phase : String) (o : Orchestrator)
    → is_phase_complete phase (start_phase q o)
      ≡ (if q == phase then true else is_phase_complete phase o)
unfolding is_phase_complete start_phase
start_phase_complete q phase o = ground (arith, lookup-insert q phase true o.phase_success)

end_phase_complete :
    (q phase : String) (success : Bool) (o : Orchestrator)
    → is_phase_complete phase (end_phase q success o)
      ≡ (if q == phase then success else is_phase_complete phase o)
unfolding is_phase_complete end_phase
end_phase_complete q phase success o = ground (arith, lookup-insert q phase success o.phase_success)

timeout_complete :
    (q phase : String) (o : Orchestrator)
    → is_phase_complete phase (on_phase_timeout q o)
      ≡ (if q == phase then false else is_phase_complete phase o)
unfolding is_phase_complete on_phase_timeout
timeout_complete q phase o = ground (arith, lookup-insert q phase false o.phase_success)

-- is_phase_complete answers what the last event about the phase says, where a start already says
-- yes; a phase without an event is not complete.
pub is_phase_complete-last :
    (phase : String) (events : List PhaseEvent)
    → is_phase_complete phase (handle_all events) ≡ last_word phase events
unfolding handle_all last_word handle is_phase_complete lookup
is_phase_complete-last phase [] = refl
is_phase_complete-last phase (started q ∷ events) =
    start_phase_complete q phase (handle_all events)
    ∙ ap (λ b. if q == phase then true else b) (is_phase_complete-last phase events)
is_phase_complete-last phase (ended q success ∷ events) =
    end_phase_complete q phase success (handle_all events)
    ∙ ap (λ b. if q == phase then success else b) (is_phase_complete-last phase events)
is_phase_complete-last phase (timed_out q ∷ events) =
    timeout_complete q phase (handle_all events)
    ∙ ap (λ b. if q == phase then false else b) (is_phase_complete-last phase events)
