-- ===== src/ActionLog/History.antt =====
-- What the history of backend/engines/ai/action_record.py holds after any sequence of calls.
use graduationp.Prelude.{
  true, false, is_some, ℕ, ◌-◌, ◌≤◌, String, List, [], ◌∷◌, ◌++◌, Option, none, some, length, drop,
  All, IfSome, ◌≡◌, refl, arith, length-drop, ltb, if_split,
}
use graduationp.ActionLog.{ActionRecord, ResolutionSession, Stamp, add_action, complete}
use graduationp.ActionLog.Log.{
  ActionLog, Report, empty, start_session, keep_last, end_session, session_or_new, log_action,
  clear, new_session, action_of,
}

-- A call on the log.
pub data Call : Type 0 where
  starts : Stamp → Option ℕ → Option String → Option String → Call
  ends : Stamp → String → Call
  logs : Stamp → Stamp → Report → Call
  clears : Call

unfoldable pub step : Call → ActionLog → ActionLog
step (starts stamp event_id source summary) log = start_session stamp event_id source summary log
step (ends stamp summary) log = (end_session stamp summary log).0
step (logs for_session for_action r) log = log_action for_session for_action r log
step clears log = clear log

-- The logs that calls lead to.
pub data Reachable : ActionLog → Type 0 where
  start : Reachable empty
  next : (c : Call) (log : ActionLog) → Reachable log → Reachable (step c log)

-- Each action of a session carries the session's id.
unfoldable pub Owned : ResolutionSession → Type 0
Owned s = All (λ (a : ActionRecord). a.session_id ≡ s.session_id) s.actions

-- A saved session is completed, with the time of its end.
unfoldable pub Completed : ResolutionSession → Type 0
Completed s = Owned s × (s.status ≡ "completed") × (is_some s.ended_at ≡ true)

-- A session that is open is in progress.
unfoldable pub Ongoing : ResolutionSession → Type 0
Ongoing s = Owned s × (s.status ≡ "in_progress") × (s.ended_at ≡ none)

pub record WellFormed (log : ActionLog) : Type 0 where
  pub short : length log.sessions ≤ 50
  pub saved : All Completed log.sessions
  pub current : IfSome Ongoing log.current_session

All-append {ℓ κ} :
    {A : Type ℓ} (P : A → Type κ) (xs ys : List A) → All P xs → All P ys → All P (xs ++ ys)
All-append P [] ys ps qs = qs
All-append P (x ∷ xs) ys (p, ps) qs = (p, All-append P xs ys ps qs)

All-drop {ℓ κ} : {A : Type ℓ} (P : A → Type κ) (n : ℕ) (xs : List A) → All P xs → All P (drop n xs)
All-drop P Prim.Native.Nat.zero xs ps = ps
All-drop P (Prim.Native.Nat.suc n) [] ps = tt
All-drop P (Prim.Native.Nat.suc n) (x ∷ xs) (p, ps) = All-drop P n xs ps

add_action-Ongoing :
    (a : ActionRecord) (s : ResolutionSession) → Ongoing s → Ongoing (add_action a s)
unfolding Ongoing add_action Owned
add_action-Ongoing a s (owned, status, ended) =
    (All-append _ s.actions _ owned (refl, tt), status, ended)

complete-Completed :
    (stamp : Stamp) (summary : String) (s : ResolutionSession)
    → Ongoing s
    → Completed (complete stamp summary s)
unfolding Ongoing Completed complete Owned
complete-Completed stamp summary s (owned, status, ended) = (owned, refl, refl)

new-Ongoing :
    (stamp : Stamp) (event_id : Option ℕ) (source summary : Option String)
    → Ongoing (new_session stamp event_id source summary)
unfolding Ongoing Owned
new-Ongoing stamp event_id source summary = (tt, refl, refl)

session_or_new-Ongoing :
    (stamp : Stamp) (o : Option ResolutionSession)
    → IfSome Ongoing o
    → Ongoing (session_or_new stamp o)
unfolding session_or_new
session_or_new-Ongoing stamp none ongoing = new-Ongoing stamp none none none
session_or_new-Ongoing stamp (some s) ongoing = ongoing

abbrev Kept : List ResolutionSession → Type 0
Kept xs = (length xs ≤ 50) × All Completed xs

within_le : (m : ℕ) → ltb 50 m ≡ false → m ≤ 50
within_le m h = ground arith

keep_last-Kept : (xs : List ResolutionSession) → All Completed xs → Kept (keep_last 50 xs)
unfolding keep_last
keep_last-Kept xs completed =
    if_split Kept (ltb 50 (length xs))
      (λ over. (
        omega (arith, length-drop (length xs - 50) xs),
        All-drop Completed (length xs - 50) xs completed,
      ))
      (λ within. (within_le (length xs) within, completed))

end-WellFormed :
    (stamp : Stamp) (summary : String) (sessions : List ResolutionSession)
    (o : Option ResolutionSession)
    → WellFormed (record { sessions = sessions; current_session = o })
    → WellFormed (end_session stamp summary (record { sessions = sessions; current_session = o })).0
unfolding end_session
end-WellFormed stamp summary sessions none wf = wf
end-WellFormed stamp summary sessions (some s) wf =
    let kept = keep_last-Kept (sessions ++ complete stamp summary s ∷ []) (
      All-append Completed sessions _ wf.saved
        (complete-Completed stamp summary s wf.current, tt)) in
    record { short = kept.0; saved = kept.1; current = tt }

step-WellFormed : (c : Call) (log : ActionLog) → WellFormed log → WellFormed (step c log)
unfolding step start_session log_action clear
step-WellFormed (starts stamp event_id source summary) log wf = record {
  short = wf.short;
  saved = wf.saved;
  current = new-Ongoing stamp event_id source summary;
}
step-WellFormed (ends stamp summary) log wf =
    end-WellFormed stamp summary log.sessions log.current_session wf
step-WellFormed (logs for_session for_action r) log wf = record {
  short = wf.short;
  saved = wf.saved;
  current =
      add_action-Ongoing (action_of for_action r) _
        (session_or_new-Ongoing for_session log.current_session wf.current);
}
step-WellFormed clears log wf = record { short = omega arith; saved = tt; current = tt }

-- After any sequence of calls the log has at most 50 saved sessions, each of them completed with the
-- time of its end, an open session is in progress, and every action of a session carries its id.
pub Reachable-Consistent : (log : ActionLog) → Reachable log → WellFormed log
Reachable-Consistent _ start = record { short = omega arith; saved = tt; current = tt }
Reachable-Consistent _ (next c log r) = step-WellFormed c log (Reachable-Consistent log r)
