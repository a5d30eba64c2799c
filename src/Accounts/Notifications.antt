-- ===== src/Accounts/Notifications.antt =====
-- back/src/modules/notifications/notification.service.ts, and the worker of back/src/workers/index.ts
-- that stores what `notifyUser` queues.
pub mod Pages
pub mod Own
use auctionhaus.Prelude.{
  ℕ, ◌+◌, ◌*◌, ◌-◌, Bool, true, false, not, ◌&&◌, Option, none, some, List, [], ◌∷◌, ◌==◌,
  if◌then◌else◌, keep, find_first, remove_first, first_n, skip_n, update_first, update_many, length,
}
use auctionhaus.Schema.{NotificationType}
use auctionhaus.Tx.{Result, ok, err, notification_not_found, not_authorized}
use auctionhaus.Accounts.{Notification, Directory}

abbrev pub is_for : ℕ → Notification → Bool
is_for user_id n = n.user_id == user_id

abbrev pub is_unread : ℕ → Notification → Bool
is_unread user_id n = n.user_id == user_id && not n.is_read

-- The job of `notificationWorker`. (The message to the user's socket is left out.)
unfoldable pub deliver : ℕ → NotificationType → Directory → Directory
deliver user_id kind people = record people {
  notifications =
      record { id = people.next_id; user_id = user_id; kind = kind; is_read = false }
      ∷ people.notifications;
  next_id = people.next_id + 1;
}

pub record Inbox : Type 0 where
  pub notifications : List Notification
  pub total : ℕ
  pub unread_count : ℕ

-- `getNotifications`, with pages from 1 on.
unfoldable pub get_notifications : ℕ → ℕ → ℕ → Directory → Inbox
unfolding keep first_n skip_n
get_notifications user_id page limit people =
    let own = keep (is_for user_id) people.notifications in
    record {
      notifications = first_n limit (skip_n ((page - 1) * limit) own);
      total = length own;
      unread_count = length (keep (is_unread user_id) people.notifications);
    }

unfoldable pub find_notification : ℕ → List Notification → Option Notification
unfolding find_first
find_notification id = find_first (λ n. n.id == id)

abbrev pub read : Notification → Notification
read n = record n { is_read = true }

-- `markRead`, of one notification where one is named, and of all otherwise.
unfoldable pub mark_read : ℕ → Option ℕ → Directory → Result (Unit {0}) × Directory
unfolding find_notification update_first update_many
mark_read user_id none people = (
  ok tt,
  record people { notifications = update_many (is_unread user_id) read people.notifications },
)
mark_read user_id (some id) people = elim (find_notification id people.notifications) [
  | none ↦ (err notification_not_found, people)
  | some n ↦ if not (n.user_id == user_id) then (err not_authorized, people) else (
    ok tt,
    record people { notifications = update_first (λ m. m.id == id) read people.notifications },
  )
]

-- `deleteNotification`
unfoldable pub delete_notification : ℕ → ℕ → Directory → Result (Unit {0}) × Directory
unfolding find_notification remove_first
delete_notification user_id id people = elim (find_notification id people.notifications) [
  | none ↦ (err notification_not_found, people)
  | some n ↦ if not (n.user_id == user_id) then (err not_authorized, people) else (
    ok tt,
    record people { notifications = remove_first (λ m. m.id == id) people.notifications },
  )
]

-- `deleteAllNotifications`
unfoldable pub delete_all_notifications : ℕ → Directory → Directory
unfolding keep
delete_all_notifications user_id people = record people {
  notifications = keep (λ m. not (is_for user_id m)) people.notifications;
}
