-- ===== src/Notifications.antt =====
-- backend/api/notification_service.py: the notifications of the application.
-- The children: the number of unread ones (Count).
pub mod Count
mod Tests
use graduationp.Prelude.{
  ℕ, suc, ◌+◌, ◌-◌, Bool, true, false, ◌&&◌, not, String, ◌==◌, List, [], ◌∷◌, Option, none, some,
  length, map, take, ltb, if◌then◌else◌,
}

-- A notification. `action` is its label and its payload; a plain one has no summary of its own.
pub record Notification : Type 0 where
  pub id : String
  pub title : String
  pub message : String
  pub summary : Option String
  pub kind : String
  pub time : String
  pub timestamp : String
  pub read : Bool
  pub action : Option (String × String)

-- `_notifications`, the newest first, and `_unread_count`.
pub record NotificationService : Type 0 where
  pub notifications : List Notification
  pub unread_count : ℕ

abbrev pub empty : NotificationService
empty = record { notifications = []; unread_count = 0 }

-- A new id, and the clock in its two formats.
pub record Stamp : Type 0 where
  pub new_id : String
  pub time : String
  pub timestamp : String

-- `insert(0, ...)`, the count, and the limit of 100
unfoldable pub keep_newest : Notification → NotificationService → NotificationService
keep_newest n s = record {
  notifications =
      if ltb 100 (length (n ∷ s.notifications))
      then take 100 (n ∷ s.notifications)
      else n ∷ s.notifications;
  unread_count = s.unread_count + 1;
}

-- `push`, with the id that it returns
unfoldable pub push :
    Stamp → String → String → String → NotificationService → NotificationService × String
push stamp title message kind s = (
  keep_newest
      (record {
        id = stamp.new_id;
        title = title;
        message = message;
        summary = none;
        kind = kind;
        time = stamp.time;
        timestamp = stamp.timestamp;
        read = false;
        action = none;
      })
      s,
  stamp.new_id,
)

-- `pushRich`
unfoldable pub push_rich :
    Stamp
    → String
    → String
    → String
    → String
    → String
    → NotificationService
    → NotificationService × String
push_rich stamp title summary kind action_label action_payload_json s = (
  keep_newest
      (record {
        id = stamp.new_id;
        title = title;
        message = summary;
        summary = some summary;
        kind = kind;
        time = stamp.time;
        timestamp = stamp.timestamp;
        read = false;
        action = if action_label == "" then none else some (action_label, action_payload_json);
      })
      s,
  stamp.new_id,
)

-- `n` stays in front of what the loop leaves of the others
unfoldable pub keep_before :
    Notification → Option (List Notification × Bool) → Option (List Notification × Bool)
keep_before n none = none
keep_before n (some (left, unread)) = some (n ∷ left, unread)

-- the loop of `clearNotification`: what is left, and whether the first one with the id was unread
unfoldable pub remove_first : String → List Notification → Option (List Notification × Bool)
unfolding keep_before
remove_first id [] = none
remove_first id (n ∷ ns) =
    let rest = remove_first id ns in
    if n.id == id then some (ns, not n.read) else keep_before n rest

unfoldable pub after_removal :
    Option (List Notification × Bool) → NotificationService → NotificationService × Bool
after_removal none s = (s, false)
after_removal (some (left, unread)) s = (
  record {
    notifications = left;
    unread_count = if unread then s.unread_count - 1 else s.unread_count;
  },
  true,
)

-- `clearNotification`
unfoldable pub clear_notification : String → NotificationService → NotificationService × Bool
clear_notification id s = after_removal (remove_first id s.notifications) s

-- `clearAll`
unfoldable pub clear_all : NotificationService → NotificationService
clear_all s = empty

unfoldable pub as_read : Notification → Notification
as_read n = record n { read = true }

-- `markAllRead`
unfoldable pub mark_all_read : NotificationService → NotificationService
mark_all_read s = record { notifications = map as_read s.notifications; unread_count = 0 }

-- the loop of `markRead`: the first unread one with the id becomes read; `true` if there is one
unfoldable pub read_first : String → List Notification → List Notification × Bool
read_first id [] = ([], false)
read_first id (n ∷ ns) =
    let (rest, found) = read_first id ns in
    if n.id == id && not n.read then (as_read n ∷ ns, true) else (n ∷ rest, found)

-- `markRead`
unfoldable pub mark_read : String → NotificationService → NotificationService
mark_read id s =
    let (ns, found) = read_first id s.notifications in
    record {
      notifications = ns;
      unread_count = if found then s.unread_count - 1 else s.unread_count;
    }
