-- ===== src/Session/Groups.antt =====
-- The groups of the events in a summary of backend/engines/scanning/sandbox_session.py.
use graduationp.Prelude.{
  append_assoc, append_nil, String, ◌==◌, List, [], ◌∷◌, ◌++◌, none, some, if◌then◌else◌, ◌≡◌, refl,
  arith, eq_iff, elem, Bool-cases, inl, inr, sym, ◌∙◌, ap,
}
use graduationp.Prelude.Dict.{Dict, lookup}
use graduationp.Session.{SandboxEvent}
use graduationp.Session.Summary.{put, group_from, of_types}

-- the group of a type, empty where there is none
unfoldable pub group : String → Dict (List SandboxEvent) → List SandboxEvent
group t groups = elim (lookup t groups) [ none ↦ [] | some events ↦ events ]

put-group :
    (t : String) (e : SandboxEvent) (groups : Dict (List SandboxEvent))
    → group t (put e groups)
      ≡ (if e.event_type == t then group t groups ++ e ∷ [] else group t groups)
unfolding group lookup put
put-group t e [] = ground arith
put-group t e ((u, g) ∷ groups) =
    ground (arith, put-group t e groups, eq_iff u e.event_type, eq_iff u t, eq_iff e.event_type t)

group_from-all :
    (t : String) (events : List SandboxEvent) (groups : Dict (List SandboxEvent))
    → group t (group_from events groups) ≡ group t groups ++ of_types (t ∷ []) events
unfolding group_from of_types elem
group_from-all t [] groups = sym (append_nil _)
group_from-all t (e ∷ events) groups = elim (Bool-cases (e.event_type == t)) [
  | inl here ↦ rw (here) (
      group_from-all t events (put e groups)
      ∙ ap (λ g. g ++ of_types (t ∷ []) events) (put-group t e groups ∙ rw (here) refl)
      ∙ append_assoc (group t groups) (e ∷ []) (of_types (t ∷ []) events))
  | inr elsewhere ↦ rw (elsewhere) (
      group_from-all t events (put e groups)
      ∙ ap (λ g. g ++ of_types (t ∷ []) events) (put-group t e groups ∙ rw (elsewhere) refl))
]

-- Whatever events a session recorded, the group that its summary has under a type is the events of
-- that type and no others, in the order in which they were recorded; a type without one has no events.
pub groups_by_type :
    (t : String) (events : List SandboxEvent)
    → group t (group_from events []) ≡ of_types (t ∷ []) events
unfolding group lookup
groups_by_type t events = group_from-all t events []
