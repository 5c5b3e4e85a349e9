-- ===== src/Session/Counts.antt =====
-- The statistics of backend/engines/scanning/sandbox_session.py.
use graduationp.Prelude.{
  ◌&&◌, is_some, if_cases, ◌≤◌, eq_iff, not, all, ℕ, ◌+◌, Bool, true, false, ◌==◌, String, List, [],
  ◌∷◌, ◌++◌, elem, if◌then◌else◌, ◌≡◌, refl, arith, Bool-cases, inl, inr,
}
use graduationp.Session.Delivery.{
  stops, acts, rounds, adds, starts, next, fresh, Call, step, Reachable,
}
use graduationp.Session.EventType
use graduationp.Session.{Float, SandboxSession, SandboxEvent, SessionStats}
use graduationp.Session.Run.{
  status_event, hand_over, stop, update_action, batch_round, start, record_event, update_stats, new,
  add_event, branches, count_event, file_types, registry_types, network_types, suspicious_types,
}

-- how many events have one of some types
unfoldable pub count_types : List String → List SandboxEvent → ℕ
count_types types [] = 0
count_types types (e ∷ events) =
    (if elem e.event_type types then 1 else 0) + count_types types events

count_types-append :
    (types : List String) (events : List SandboxEvent) (e : SandboxEvent)
    → count_types types (events ++ e ∷ [])
      ≡ count_types types events + (if elem e.event_type types then 1 else 0)
unfolding count_types
count_types-append types [] e = omega arith
count_types-append types (x ∷ events) e = omega (arith, count_types-append types events e)

abbrev bit : Bool → ℕ
bit b = if b then 1 else 0

elem-disjoint :
    (t : String) (these those : List String)
    → all (λ a. not (elem a those)) these ≡ true
    → elem t these ≡ true
    → elem t those ≡ false
unfolding elem
elem-disjoint t [] those apart here = ground arith
elem-disjoint t (a ∷ these) those apart here = elim (Bool-cases (t == a)) [
  | inl same ↦ rw ((eq_iff t a).0 same) (ground (arith, apart))
  | inr differ ↦ elem-disjoint t these those (ground (arith, apart)) (ground (arith, here, differ))
]

abbrev process_types : List String
process_types = EventType.process_start ∷ []

is_process : (t : String) → (t == EventType.process_start) ≡ elem t process_types
unfolding elem
is_process t = ground arith

-- what an event adds to each counter, by the groups that its type is in
abbrev Adds : (p f r n x : Bool) → SessionStats → SessionStats → Type 0
Adds p f r n x st st' =
    (st'.processes_spawned ≡ st.processes_spawned + bit p)
    × (st'.files_touched ≡ st.files_touched + bit f)
    × (st'.registry_changes ≡ st.registry_changes + bit r)
    × (st'.network_attempts ≡ st.network_attempts + bit n)
    × (st'.suspicious_behaviors ≡ st.suspicious_behaviors + bit x)

-- at most one of five tests holds
abbrev AtMostOne : (p f r n x : Bool) → Type 0
AtMostOne p f r n x = bit p + bit f + bit r + bit n + bit x ≤ 1

branches-Adds :
    (p f r n x : Bool) (st : SessionStats)
    → AtMostOne p f r n x
    → Adds p f r n x st (branches p f r n x st)
unfolding branches
branches-Adds true f r n x st one = ground (arith, one)
branches-Adds false true r n x st one = ground (arith, one)
branches-Adds false false true n x st one = ground (arith, one)
branches-Adds false false false true x st one = ground (arith, one)
branches-Adds false false false false x st one = ground (arith, one)

bits_apart : (a b : Bool) → (a ≡ true → b ≡ false) → bit a + bit b ≤ 1
bits_apart true b apart = rw (apart refl) (omega arith)
bits_apart false true apart = omega arith
bits_apart false false apart = omega arith

apart :
    (t : String) (these those : List String)
    → all (λ a. not (elem a those)) these ≡ true
    → bit (elem t these) + bit (elem t those) ≤ 1
apart t these those h = bits_apart _ _ (elem-disjoint t these those h)

bit-le : (b : Bool) → bit b ≤ 1
bit-le true = omega arith
bit-le false = omega arith

one_group :
    (t : String)
    → AtMostOne
        (elem t process_types)
        (elem t file_types)
        (elem t registry_types)
        (elem t network_types)
        (elem t suspicious_types)
unfolding elem
one_group t = omega (
  arith,
  bit-le (elem t process_types),
  bit-le (elem t file_types),
  bit-le (elem t registry_types),
  bit-le (elem t network_types),
  bit-le (elem t suspicious_types),
  apart t process_types file_types refl,
  apart t process_types registry_types refl,
  apart t process_types network_types refl,
  apart t process_types suspicious_types refl,
  apart t file_types registry_types refl,
  apart t file_types network_types refl,
  apart t file_types suspicious_types refl,
  apart t registry_types network_types refl,
  apart t registry_types suspicious_types refl,
  apart t network_types suspicious_types refl,
)

abbrev AddsType : String → SessionStats → SessionStats → Type 0
AddsType t =
    Adds (elem t process_types) (elem t file_types) (elem t registry_types) (elem t network_types)
      (elem t suspicious_types)

count_event-Adds : (t : String) (st : SessionStats) → AddsType t st (count_event t st)
unfolding count_event
count_event-Adds t st = rw (is_process t) (branches-Adds _ _ _ _ _ st (one_group t))

-- The statistics count the events by the groups of their types.
unfoldable pub Counted : SessionStats → List SandboxEvent → Type 0
Counted st events =
    (st.processes_spawned ≡ count_types process_types events)
    × (st.files_touched ≡ count_types file_types events)
    × (st.registry_changes ≡ count_types registry_types events)
    × (st.network_attempts ≡ count_types network_types events)
    × (st.suspicious_behaviors ≡ count_types suspicious_types events)

-- one event more
append-Counted :
    (e : SandboxEvent) (st : SessionStats) (events : List SandboxEvent)
    → Counted st events
    → Counted (count_event e.event_type st) (events ++ e ∷ [])
unfolding Counted
append-Counted e st events (p, f, r, n, x) =
    let (p', f', r', n', x') = count_event-Adds e.event_type st in
    (
      omega (arith, p, p', count_types-append process_types events e),
      omega (arith, f, f', count_types-append file_types events e),
      omega (arith, r, r', count_types-append registry_types events e),
      omega (arith, n, n', count_types-append network_types events e),
      omega (arith, x, x', count_types-append suspicious_types events e),
    )

-- The statistics of a session count its events.
abbrev pub CountedIn : SandboxSession → Type 0
CountedIn s = Counted s.stats s.events

update-Counted :
    (seconds : Float) (has_started : Bool) (e : SandboxEvent) (st : SessionStats)
    (events : List SandboxEvent)
    → Counted st events
    → Counted (update_stats seconds has_started e st) (events ++ e ∷ [])
unfolding update_stats Counted
update-Counted seconds true e st events c =
    append-Counted e (record st { running_time_seconds = seconds }) events c
update-Counted seconds false e st events c = append-Counted e st events c

add_event-Counted :
    (seconds : Float) (written : Bool) (e : SandboxEvent) (s : SandboxSession)
    → CountedIn s
    → CountedIn (add_event seconds written e s)
unfolding add_event record_event
add_event-Counted seconds written e s c =
    if_cases CountedIn s.is_running (update-Counted seconds _ e s.stats s.events c) c

step-Counted : (c : Call) (s : SandboxSession) → CountedIn s → CountedIn (step c s)
unfolding step start batch_round update_action stop hand_over Counted
step-Counted (starts now path hash) s c = c
step-Counted (adds seconds written e) s c = add_event-Counted seconds written e s c
step-Counted (rounds seconds) s c =
    if_cases CountedIn (s.has_stats_callback && is_some s.start_time) c c
step-Counted (acts event_id now seconds written action) s c =
    add_event-Counted seconds written (status_event event_id now action) _ c
step-Counted (stops now cancelled written) s c = c

-- In every session that calls lead to, with an event callback or without, each of the five statistics is the number of the recorded
-- events whose type is in its group.
pub Reachable-CountedIn : (s : SandboxSession) → Reachable s → CountedIn s
unfolding new Counted count_types
Reachable-CountedIn _ (fresh session_id has_callback has_stats_callback) =
    (refl, refl, refl, refl, refl)
Reachable-CountedIn _ (next c s r) = step-Counted c s (Reachable-CountedIn s r)
