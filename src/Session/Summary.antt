-- ===== src/Session/Summary.antt =====
-- The summary of a session of backend/engines/scanning/sandbox_session.py.
use graduationp.Prelude.{
  ℕ, ◌+◌, Bool, true, String, ◌==◌, ◌++ˢ◌, List, [], ◌∷◌, ◌++◌, Option, none, some, length, elem,
  take, ltb, ◌==ℕ◌, show_nat, join, if◌then◌else◌,
}
use graduationp.Prelude.Dict.{Dict}
use graduationp.Session.EventType
use graduationp.Session.{SandboxEvent, SessionStats, SandboxSession}
use graduationp.Session.Run.{registry_types, suspicious_types}

-- `groups[event_type].append(...)`, with a new group where there is none
unfoldable pub put : SandboxEvent → Dict (List SandboxEvent) → Dict (List SandboxEvent)
put e [] = (e.event_type, e ∷ []) ∷ []
put e ((t, group) ∷ groups) =
    let rest = put e groups in
    if t == e.event_type then (t, group ++ e ∷ []) ∷ groups else (t, group) ∷ rest

-- the loop of `_group_events_by_type`
unfoldable pub group_from : List SandboxEvent → Dict (List SandboxEvent) → Dict (List SandboxEvent)
group_from [] groups = groups
group_from (e ∷ events) groups = group_from events (put e groups)

-- the events whose type is one of `types`
unfoldable pub of_types : List String → List SandboxEvent → List SandboxEvent
of_types types [] = []
of_types types (e ∷ events) =
    let rest = of_types types events in if elem e.event_type types then e ∷ rest else rest

-- `_get_suspicious_behaviors`
unfoldable pub suspicious_of : List SandboxEvent → List SandboxEvent
suspicious_of events = of_types suspicious_types events

abbrev pid_text : List SandboxEvent → String
pid_text [] = ""
pid_text (e ∷ events) = elim e.pid [ none ↦ "None" | some n ↦ show_nat n ]

abbrev counted : ℕ → String → String → List String
counted n before after = if ltb 0 n then (before ++ˢ show_nat n ++ˢ after) ∷ [] else []

abbrev process_part : List SandboxEvent → List String
process_part starts =
    if length starts ==ℕ 1
    then ("The sample launched as a single process (PID: " ++ˢ pid_text starts ++ˢ ").") ∷ []
    else counted (length starts) "The sample spawned " " processes during execution."

abbrev described : Option String → List String → List String
described none rest = rest
described (some d) rest = if d == "" then rest else ("  • " ++ˢ d) ∷ rest

-- the first five suspicious events that have a description
unfoldable pub descriptions : List SandboxEvent → List String
descriptions [] = []
descriptions (e ∷ events) = described e.description (descriptions events)

abbrev suspicious_part : List SandboxEvent → List String
suspicious_part found =
    counted (length found) "Detected " " suspicious behavior(s):" ++ descriptions (take 5 found)

-- the parts of `_generate_narrative`
unfoldable pub narrative_parts : List SandboxEvent → List String
narrative_parts events =
    process_part (of_types (EventType.process_start ∷ []) events)
    ++ counted
        (length (of_types (EventType.file_create ∷ []) events)
          + length (of_types (EventType.file_modify ∷ []) events))
        "It created or modified " " file(s) on the system."
    ++ counted (length (of_types registry_types events)) "Made " " registry modification(s)."
    ++ counted (length (of_types (EventType.network_connect ∷ []) events)) "Attempted "
        " network connection(s)."
    ++ counted (length (of_types (EventType.network_blocked ∷ []) events)) "Blocked "
        " outbound network attempt(s)."
    ++ suspicious_part (suspicious_of events)

-- `_generate_narrative`
unfoldable pub generate_narrative : List SandboxEvent → String
generate_narrative [] = "No significant activity was observed during sandbox execution."
generate_narrative (e ∷ events) =
    let parts = narrative_parts (e ∷ events) in
    if ltb 0 (length parts)
    then join " " parts
    else "The sample executed without significant observable behavior."

-- What `_write_summary` writes to the file "summary.json".
pub record SessionSummary : Type 0 where
  pub session_id : String
  pub sample_path : Option String
  pub sample_hash : Option String
  pub start_time : Option String
  pub end_time : Option String
  pub cancelled : Bool
  pub stats : SessionStats
  pub events_by_type : Dict (List SandboxEvent)
  pub suspicious_behaviors : List SandboxEvent
  pub narrative : String

unfoldable pub summary_of :
    Dict (List SandboxEvent) → List SandboxEvent → SandboxSession → SessionSummary
summary_of groups suspicious s = record {
  session_id = s.session_id;
  sample_path = s.sample_path;
  sample_hash = s.sample_hash;
  start_time = s.start_time;
  end_time = s.end_time;
  cancelled = s.was_cancelled;
  stats = s.stats;
  events_by_type = groups;
  suspicious_behaviors = suspicious;
  narrative = generate_narrative s.events;
}

-- `with self._lock:` around a computation. The lock is not reentrant: where the thread holds it
-- already, it waits for itself, which is `none`.
unfoldable pub with_lock {ℓ} : {A : Type ℓ} → Bool → (Bool → Option A) → Option A
with_lock held body = if held then none else body true

-- `_group_events_by_type` and `_get_suspicious_behaviors` in a thread that holds the lock or not
unfoldable pub group_events_by_type : SandboxSession → Bool → Option (Dict (List SandboxEvent))
group_events_by_type s held = with_lock held (λ _. some (group_from s.events []))

unfoldable pub get_suspicious_behaviors : SandboxSession → Bool → Option (List SandboxEvent)
get_suspicious_behaviors s held = with_lock held (λ _. some (suspicious_of s.events))

summary_from :
    SandboxSession
    → Option (Dict (List SandboxEvent))
    → Option (List SandboxEvent)
    → Option SessionSummary
summary_from s (some groups) (some suspicious) = some (summary_of groups suspicious s)
summary_from s _ _ = none

unfoldable pub written_or_logged : Bool → Option SessionSummary → Option (Option SessionSummary)
written_or_logged raises none = none
written_or_logged raises (some summary) = some (if raises then none else some summary)

-- `_write_summary`, which does not hold the lock: what it writes, or nothing where building, opening or
-- writing raises, which is only logged
unfoldable pub write_summary : SandboxSession → Bool → Bool → Option (Option SessionSummary)
unfolding summary_from written_or_logged
write_summary s held raises =
    written_or_logged raises
      (summary_from s (group_events_by_type s held) (get_suspicious_behaviors s held))

-- `get_summary`, which builds the same dictionary while it holds the lock
unfoldable pub get_summary : SandboxSession → Bool → Option SessionSummary
unfolding summary_from
get_summary s held =
    with_lock held
      (λ inside. summary_from s (group_events_by_type s inside) (get_suspicious_behaviors s inside))
