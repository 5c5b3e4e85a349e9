-- ===== src/Session/Tests.antt =====
-- Runs of backend/engines/scanning/sandbox_session.py, and each theorem about it at an input.
use graduationp.Prelude.{join, show_nat, elem, true, false, [], ◌∷◌, none, some, ◌≡◌, refl}
use graduationp.Prelude.Float.{Float}
use graduationp.Session.EventType
use graduationp.Session.{SandboxEvent, SandboxSession}
use graduationp.Session.Run.{
  start, batch_round, record_event, add_event, hand_over, new, stop, status_event,
}
use graduationp.Session.Delivery.{Call, step, Reachable, concat, stopped_all_handed}
use graduationp.Session.Counts.{CountedIn, Reachable-CountedIn}
use graduationp.Session.Groups.{group, groups_by_type}
use graduationp.Session.Summary.{
  descriptions, narrative_parts, group_from, of_types, suspicious_of, generate_narrative,
}

abbrev second : Float
second = record { numerator = 1; exponent = 0 }

abbrev started : SandboxEvent
started = record (status_event "a1" "2026-01-01T09:30:00" "") {
  event_type = EventType.process_start;
  pid = some 4711;
}

abbrev dropped : SandboxEvent
dropped = record started { event_type = EventType.file_create }

abbrev launched : SandboxSession
launched = step (Call.starts "2026-01-01T09:30:00" "C:\\a.exe" none) (new "s" true true)

abbrev first_batch : SandboxSession
first_batch = step (Call.rounds second) (step (Call.adds second true started) launched)

abbrev running : SandboxSession
running = step (Call.adds second false dropped) first_batch

running-Reachable : Reachable running
running-Reachable = Reachable.next (Call.adds second false dropped) first_batch (
    Reachable.next (Call.rounds second) _ (
      Reachable.next (Call.adds second true started) launched
        (Reachable.next _ (new "s" true true) (Reachable.fresh "s" true true))))

stopped_all_handed_example :
    concat (stop "2026-01-01T09:31:00" false true running).handed ≡ running.events
unfolding step add_event batch_round start record_event new hand_over
stopped_all_handed_example =
    stopped_all_handed "2026-01-01T09:31:00" false true running running-Reachable refl

Reachable-CountedIn_example : CountedIn running
Reachable-CountedIn_example = Reachable-CountedIn running running-Reachable

two_batches :
    (stop "2026-01-01T09:31:00" false true running).handed ≡ (started ∷ []) ∷ (dropped ∷ []) ∷ []
unfolding stop hand_over step add_event record_event batch_round start new
two_batches = refl

narrative :
    generate_narrative (started ∷ dropped ∷ [])
    ≡ "The sample launched as a single process (PID: 4711). It created or modified 1 file(s) on the system."
unfolding generate_narrative narrative_parts of_types elem show_nat join suspicious_of descriptions
narrative = refl

groups_by_type_example :
    group "process_start" (group_from running.events [])
    ≡ of_types ("process_start" ∷ []) running.events
groups_by_type_example = groups_by_type "process_start" running.events
