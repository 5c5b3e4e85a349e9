-- ===== src/Notifications/Count.antt =====
-- The number of unread notifications of backend/api/notification_service.py.
use graduationp.Prelude.{
  if_split, ◌==◌, sym, if_cases, ℕ, suc, ◌+◌, ◌≤◌, ◌<◌, Bool, false, String, List, [], ◌∷◌, Option,
  none, some, length, take, map, if◌then◌else◌, ◌≡◌, refl, arith, IfSome,
}
use graduationp.Notifications.{
  ltb, as_read, keep_before, not, after_removal, Notification, NotificationService, Stamp, empty,
  keep_newest, push, push_rich, remove_first, clear_notification, clear_all, mark_all_read,
  read_first, mark_read,
}

-- the notifications of the list that are unread
unfoldable pub unread : List Notification → ℕ
unread [] = 0
unread (n ∷ ns) = (if n.read then 0 else 1) + unread ns

-- A call of a slot.
pub data Call : Type 0 where
  pushes : Stamp → String → String → String → Call
  pushes_rich : Stamp → String → String → String → String → String → Call
  clears : String → Call
  clears_all : Call
  marks_all_read_none : Call
  marks_read : String → Call

unfoldable pub step : Call → NotificationService → NotificationService
step (pushes stamp title message kind) s = (push stamp title message kind s).0
step (pushes_rich stamp title summary kind label payload) s =
    (push_rich stamp title summary kind label payload s).0
step (clears id) s = (clear_notification id s).0
step clears_all s = clear_all s
step marks_all_read_none s = mark_all_read s
step (marks_read id) s = mark_read id s

-- The states that calls lead to.
pub data Reachable : NotificationService → Type 0 where
  start : Reachable empty
  next : (c : Call) (s : NotificationService) → Reachable s → Reachable (step c s)

-- At most 100 notifications, and the count is at least the number of unread ones.
pub record WellFormed (s : NotificationService) : Type 0 where
  pub short : length s.notifications ≤ 100
  pub covers : unread s.notifications ≤ s.unread_count

take-unread : (n : ℕ) (ns : List Notification) → unread (take n ns) ≤ unread ns
unfolding unread
take-unread Prim.Native.Nat.zero ns = omega arith
take-unread (suc n) [] = omega arith
take-unread (suc n) (x ∷ ns) = omega (arith, take-unread n ns)

take-length : (n : ℕ) (ns : List Notification) → length (take n ns) ≤ n
take-length Prim.Native.Nat.zero ns = omega arith
take-length (suc n) [] = omega arith
take-length (suc n) (x ∷ ns) = omega (arith, take-length n ns)

unread_cons :
    (n : Notification) (ns : List Notification) → n.read ≡ false → unread (n ∷ ns) ≡ suc (unread ns)
unfolding unread
unread_cons n ns fresh = ground (arith, fresh)

unfoldable Short : List Notification → Type 0
Short ns = length ns ≤ 100

unfoldable Unread : ℕ → List Notification → Type 0
Unread count ns = unread ns ≤ count + 1

within_le : (m : ℕ) → ltb 100 m ≡ false → m ≤ 100
within_le m h = ground arith

keep_newest-WellFormed :
    (n : Notification) (s : NotificationService)
    → n.read ≡ false
    → WellFormed s
    → WellFormed (keep_newest n s)
unfolding keep_newest Short Unread
keep_newest-WellFormed n s fresh wf = record {
  short =
      if_split Short (ltb 100 (length (n ∷ s.notifications)))
        (λ over. take-length 100 (n ∷ s.notifications))
        (λ within. within_le (length (n ∷ s.notifications)) within);
  covers =
      let counted : unread (n ∷ s.notifications) ≤ s.unread_count + 1 =
        omega (arith, unread_cons n s.notifications fresh, wf.covers) in
      if_cases (Unread s.unread_count) (ltb 100 (length (n ∷ s.notifications)))
        (omega (arith, take-unread 100 (n ∷ s.notifications), counted)) counted;
}

-- one or none
abbrev pub bit : Bool → ℕ
bit b = if b then 1 else 0

-- what a removal leaves: one less, and one less unread if the removed one was
abbrev Removed : List Notification → List Notification × Bool → Type 0
Removed ns r = (length ns ≡ suc (length r.0)) × (unread ns ≡ bit r.1 + unread r.0)

keep_before-Removed :
    (n : Notification) (ns : List Notification) (r : Option (List Notification × Bool))
    → IfSome (Removed ns) r
    → IfSome (Removed (n ∷ ns)) (keep_before n r)
unfolding keep_before unread
keep_before-Removed n ns none removed = tt
keep_before-Removed n ns (some (left, was)) (shorter, less) =
    (omega (arith, shorter), omega (arith, less))

removed_here :
    (n : Notification) (ns : List Notification) → unread (n ∷ ns) ≡ bit (not n.read) + unread ns
unfolding unread
removed_here n ns = ground arith

remove_first-Removed :
    (id : String) (ns : List Notification) → IfSome (Removed ns) (remove_first id ns)
unfolding remove_first
remove_first-Removed id [] = tt
remove_first-Removed id (n ∷ ns) =
    if_cases (IfSome (Removed (n ∷ ns))) (n.id == id) (refl, removed_here n ns)
      (keep_before-Removed n ns (remove_first id ns) (remove_first-Removed id ns))

after_removal-WellFormed :
    (r : Option (List Notification × Bool)) (s : NotificationService)
    → IfSome (Removed s.notifications) r
    → WellFormed s
    → WellFormed (after_removal r s).0
unfolding after_removal
after_removal-WellFormed none s removed wf = wf
after_removal-WellFormed (some (left, was)) s (shorter, less) wf = record {
  short = omega (arith, shorter, wf.short);
  covers = ground (arith, less, wf.covers);
}

-- what reading one leaves
read_first-unread :
    (id : String) (ns : List Notification)
    → (length (read_first id ns).0 ≡ length ns)
      × (unread ns ≡ bit (read_first id ns).1 + unread (read_first id ns).0)
unfolding read_first unread as_read
read_first-unread id [] = (refl, refl)
read_first-unread id (n ∷ ns) = ground (arith, read_first-unread id ns)

mark_read-WellFormed :
    (id : String) (s : NotificationService) → WellFormed s → WellFormed (mark_read id s)
unfolding mark_read
mark_read-WellFormed id s wf = record {
  short = omega (arith, read_first-unread id s.notifications, wf.short);
  covers = ground (arith, read_first-unread id s.notifications, wf.covers);
}

all_read_none :
    (ns : List Notification) → (length (map as_read ns) ≡ length ns) × (unread (map as_read ns) ≡ 0)
unfolding unread as_read
all_read_none [] = (refl, refl)
all_read_none (n ∷ ns) = (omega (arith, all_read_none ns), omega (arith, all_read_none ns))

mark_all_read-WellFormed : (s : NotificationService) → WellFormed s → WellFormed (mark_all_read s)
unfolding mark_all_read
mark_all_read-WellFormed s wf = record {
  short = omega (arith, all_read_none s.notifications, wf.short);
  covers = omega (arith, all_read_none s.notifications);
}

empty-WellFormed : WellFormed empty
unfolding unread
empty-WellFormed = record { short = omega arith; covers = omega arith }

step-WellFormed : (c : Call) (s : NotificationService) → WellFormed s → WellFormed (step c s)
unfolding step push push_rich clear_notification clear_all
step-WellFormed (pushes stamp title message kind) s wf = keep_newest-WellFormed _ s refl wf
step-WellFormed (pushes_rich stamp title summary kind label payload) s wf =
    keep_newest-WellFormed _ s refl wf
step-WellFormed (clears id) s wf =
    after_removal-WellFormed _ s (remove_first-Removed id s.notifications) wf
step-WellFormed clears_all s wf = empty-WellFormed
step-WellFormed marks_all_read_none s wf = mark_all_read-WellFormed s wf
step-WellFormed (marks_read id) s wf = mark_read-WellFormed id s wf

-- After any sequence of calls there are at most 100 notifications, and the count of unread ones is
-- at least the number of those that are unread.
Reachable-Covered : (s : NotificationService) → Reachable s → WellFormed s
Reachable-Covered _ start = empty-WellFormed
Reachable-Covered _ (next c s r) = step-WellFormed c s (Reachable-Covered s r)

-- The count is the number of unread notifications.
abbrev pub Exact : NotificationService → Type 0
Exact s = s.unread_count ≡ unread s.notifications

-- A call does not push a notification onto a full list.
unfoldable pub HasRoom : Call → NotificationService → Type 0
HasRoom (pushes _ _ _ _) s = length s.notifications < 100
HasRoom (pushes_rich _ _ _ _ _ _) s = length s.notifications < 100
HasRoom _ s = Unit

not_full : (n : ℕ) → n < 100 → ltb 100 (suc n) ≡ false
not_full n room = ground arith

keep_newest-Exact :
    (n : Notification) (s : NotificationService)
    → n.read ≡ false
    → length s.notifications < 100
    → Exact s
    → Exact (keep_newest n s)
unfolding keep_newest
keep_newest-Exact n s fresh room exact =
    rw (not_full (length s.notifications) room)
      (omega (arith, exact, unread_cons n s.notifications fresh))

after_removal-Exact :
    (r : Option (List Notification × Bool)) (s : NotificationService)
    → IfSome (Removed s.notifications) r
    → Exact s
    → Exact (after_removal r s).0
unfolding after_removal
after_removal-Exact none s removed exact = exact
after_removal-Exact (some (left, was)) s (shorter, less) exact = ground (arith, less, exact)

mark_read-Exact : (id : String) (s : NotificationService) → Exact s → Exact (mark_read id s)
unfolding mark_read
mark_read-Exact id s exact = ground (arith, read_first-unread id s.notifications, exact)

-- Each call but a push onto a full list keeps the count of unread notifications exact.
pub step-Exact : (c : Call) (s : NotificationService) → HasRoom c s → Exact s → Exact (step c s)
unfolding step push push_rich clear_notification clear_all mark_all_read HasRoom unread
step-Exact (pushes stamp title message kind) s room exact = keep_newest-Exact _ s refl room exact
step-Exact (pushes_rich stamp title summary kind label payload) s room exact =
    keep_newest-Exact _ s refl room exact
step-Exact (clears id) s room exact =
    after_removal-Exact _ s (remove_first-Removed id s.notifications) exact
step-Exact clears_all s room exact = refl
step-Exact marks_all_read_none s room exact = sym (all_read_none s.notifications).1
step-Exact (marks_read id) s room exact = mark_read-Exact id s exact
