-- ===== src/Notifications/Tests.antt =====
-- Runs of backend/api/notification_service.py, and each theorem about it at an input.
use graduationp.Notifications.Count.{step-Exact, Reachable, Exact, Call, step, HasRoom, unread}
use graduationp.Prelude.{ℕ, suc, ◌≡◌, refl, arith}
use graduationp.Notifications.{
  read_first, mark_read, keep_newest, push, NotificationService, Stamp, empty,
}

abbrev stamp : Stamp
stamp = record { new_id = "1a2b3c4d"; time = "09:30"; timestamp = "2026-01-01T09:30:00" }

abbrev say_hello : Call
say_hello = Call.pushes stamp "Hello" "World" "info"

abbrev one : NotificationService
one = step say_hello empty

one-Reachable : Reachable one
one-Reachable = Reachable.next say_hello empty Reachable.start

abbrev after : ℕ → NotificationService
after Prim.Native.Nat.zero = empty
after (suc n) = step say_hello (after n)

-- After 101 pushes 100 notifications are kept, and 101 are said to be unread.
dropped_unread : (after 101).unread_count ≡ 101
unfolding step push keep_newest
dropped_unread = refl

read_one : (step (Call.marks_read "1a2b3c4d") one).unread_count ≡ 0
unfolding step push keep_newest mark_read read_first
read_one = refl

empty-Exact : Exact empty
unfolding unread
empty-Exact = refl

has_room : HasRoom say_hello empty
unfolding HasRoom
has_room = omega arith

step-Exact_example : Exact (step say_hello empty)
step-Exact_example = step-Exact say_hello empty has_room empty-Exact
