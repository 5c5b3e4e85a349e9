-- ===== src/Session/Delivery.antt =====
-- How the events of backend/engines/scanning/sandbox_session.py reach the callback.
use graduationp.Prelude.{
  append_assoc, append_nil, arith, suc, ℕ, is_some, Bool, true, ◌&&◌, String, List, [], ◌∷◌, ◌++◌,
  Option, length, ltb, if◌then◌else◌, ◌≡◌, refl, ap, sym, ◌∙◌, if_cases,
}
use graduationp.Prelude.Float.{Float}
use graduationp.Session.{SandboxEvent, SandboxSession}
use graduationp.Session.Run.{
  record_event, new, start, add_event, hand_over, batch_round, update_action, stop, status_event,
}

-- A call on a session, or a round of the thread of the batches. `add_event` and `stop` are called by
-- the thread that runs the sandbox, so they do not overlap.
pub data Call : Type 0 where
  starts : String → String → Option String → Call
  adds : Float → Bool → SandboxEvent → Call
  rounds : Float → Call
  acts : String → String → Float → Bool → String → Call
  stops : String → Bool → Bool → Call

unfoldable pub step : Call → SandboxSession → SandboxSession
step (starts now path hash) s = start now path hash s
step (adds seconds written e) s = add_event seconds written e s
step (rounds seconds) s = batch_round seconds s
step (acts event_id now seconds written action) s =
    update_action event_id now seconds written action s
step (stops now cancelled written) s = stop now cancelled written s

-- The sessions that calls lead to, with an event callback or without.
pub data Reachable : SandboxSession → Type 0 where
  fresh :
      (session_id : String) (has_callback has_stats_callback : Bool)
      → Reachable (new session_id has_callback has_stats_callback)
  next : (c : Call) (s : SandboxSession) → Reachable s → Reachable (step c s)

unfoldable pub concat {ℓ} : {A : Type ℓ} → List (List A) → List A
concat [] = []
concat (xs ∷ xss) = xs ++ concat xss

-- What was handed over and what waits are the events, in their order.
pub record InOrder (s : SandboxSession) : Type 0 where
  pub has : s.has_callback ≡ true
  pub order : concat s.handed ++ s.queue ≡ s.events

concat-append {ℓ} :
    {A : Type ℓ} (xss : List (List A)) (ys : List A) → concat (xss ++ ys ∷ []) ≡ concat xss ++ ys
unfolding concat
concat-append [] ys = append_nil ys
concat-append (xs ∷ xss) ys =
    ap (λ l. xs ++ l) (concat-append xss ys) ∙ sym (append_assoc xs (concat xss) ys)

record_event-InOrder :
    (seconds : Float) (written : Bool) (e : SandboxEvent) (s : SandboxSession)
    → InOrder s
    → InOrder (record_event seconds written e s)
unfolding record_event
record_event-InOrder seconds written e s i = record {
  has = i.has;
  order = sym (append_assoc (concat s.handed) s.queue (e ∷ [])) ∙ ap (λ l. l ++ e ∷ []) i.order;
}

add_event-InOrder :
    (seconds : Float) (written : Bool) (e : SandboxEvent) (s : SandboxSession)
    → InOrder s
    → InOrder (add_event seconds written e s)
unfolding add_event
add_event-InOrder seconds written e s i =
    if_cases InOrder s.is_running (record_event-InOrder seconds written e s i) i

ltb-suc : (n : ℕ) → ltb 0 (suc n) ≡ true
ltb-suc n = ground arith

-- handing over a queue keeps all of it
handed-all :
    (queue : List SandboxEvent) (handed : List (List SandboxEvent))
    → concat (if ltb 0 (length queue) && true then handed ++ queue ∷ [] else handed)
      ≡ concat handed ++ queue
handed-all [] handed = sym (append_nil (concat handed))
handed-all (e ∷ queue) handed = rw (ltb-suc (length queue)) (concat-append handed (e ∷ queue))

hand_over-InOrder : (s : SandboxSession) → InOrder s → InOrder (hand_over s)
unfolding hand_over
hand_over-InOrder s i = record {
  has = i.has;
  order = append_nil _ ∙ rw (i.has) (handed-all s.queue s.handed) ∙ i.order;
}

batch_round-InOrder :
    (seconds : Float) (s : SandboxSession) → InOrder s → InOrder (batch_round seconds s)
unfolding batch_round
batch_round-InOrder seconds s i =
    let h = hand_over-InOrder s i in
    if_cases InOrder (s.has_stats_callback && is_some s.start_time)
      (record { has = h.has; order = h.order }) h

update_action-InOrder :
    (event_id now : String) (seconds : Float) (written : Bool) (action : String)
    (s : SandboxSession)
    → InOrder s
    → InOrder (update_action event_id now seconds written action s)
unfolding update_action
update_action-InOrder event_id now seconds written action s i =
    add_event-InOrder seconds written (status_event event_id now action) _
      (record { has = i.has; order = i.order })

stop-InOrder :
    (now : String) (cancelled written : Bool) (s : SandboxSession)
    → InOrder s
    → InOrder (stop now cancelled written s)
unfolding stop
stop-InOrder now cancelled written s i =
    hand_over-InOrder _ (record { has = i.has; order = i.order })

step-InOrder : (c : Call) (s : SandboxSession) → InOrder s → InOrder (step c s)
unfolding step start
step-InOrder (starts now path hash) s i = record { has = i.has; order = i.order }
step-InOrder (adds seconds written e) s i = add_event-InOrder seconds written e s i
step-InOrder (rounds seconds) s i = batch_round-InOrder seconds s i
step-InOrder (acts event_id now seconds written action) s i =
    update_action-InOrder event_id now seconds written action s i
step-InOrder (stops now cancelled written) s i = stop-InOrder now cancelled written s i

-- no call changes whether there is a callback
add_event-has_callback :
    (seconds : Float) (written : Bool) (e : SandboxEvent) (s : SandboxSession)
    → (add_event seconds written e s).has_callback ≡ s.has_callback
unfolding add_event record_event
add_event-has_callback seconds written e s =
    if_cases (λ (t : SandboxSession). t.has_callback ≡ s.has_callback) s.is_running refl refl

step-has_callback : (c : Call) (s : SandboxSession) → (step c s).has_callback ≡ s.has_callback
unfolding step start batch_round update_action stop hand_over
step-has_callback (starts now path hash) s = refl
step-has_callback (adds seconds written e) s = add_event-has_callback seconds written e s
step-has_callback (rounds seconds) s =
    if_cases (λ (t : SandboxSession). t.has_callback ≡ s.has_callback)
      (s.has_stats_callback && is_some s.start_time) refl refl
step-has_callback (acts event_id now seconds written action) s =
    add_event-has_callback seconds written (status_event event_id now action) _
step-has_callback (stops now cancelled written) s = refl

Reachable-InOrder : (s : SandboxSession) → Reachable s → s.has_callback ≡ true → InOrder s
unfolding new concat
Reachable-InOrder _ (fresh session_id has_callback has_stats_callback) has = record {
  has = has;
  order = refl;
}
Reachable-InOrder _ (next c s r) has =
    step-InOrder c s (Reachable-InOrder s r (sym (step-has_callback c s) ∙ has))

-- At the end of a session that has a callback, whatever calls and rounds came before, the batches that
-- the callback got are the recorded events, each exactly once and in their order.
pub stopped_all_handed :
    (now : String) (cancelled written : Bool) (s : SandboxSession)
    → Reachable s
    → s.has_callback ≡ true
    → concat (stop now cancelled written s).handed ≡ s.events
unfolding stop hand_over
stopped_all_handed now cancelled written s r has =
    sym (append_nil _) ∙ (stop-InOrder now cancelled written s (Reachable-InOrder s r has)).order
