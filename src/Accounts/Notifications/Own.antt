-- ===== src/Accounts/Notifications/Own.antt =====
-- Whose notifications an operation changes.
use auctionhaus.Prelude.{
  ℕ, ◌≡◌, ◌≢◌, refl, ap, none, some, List, [], ◌∷◌, not, keep, length, find_first, update_first,
  update_many, remove_first, arith, ◌==◌,
}
use auctionhaus.Accounts.{Notification, Directory}
use auctionhaus.Accounts.Notifications.{
  is_for, is_unread, read, find_notification, get_notifications, mark_read, delete_notification,
  delete_all_notifications,
}

-- One row that is found and is of user `u` is marked.
keep-update_first :
    (u v id : ℕ) (ns : List Notification) (n : Notification)
    → u ≢ v
    → find_notification id ns ≡ some n
    → n.user_id ≡ u
    → keep (is_for v) (update_first (λ m. m.id == id) read ns) ≡ keep (is_for v) ns
unfolding keep update_first find_notification find_first
keep-update_first u v id [] n other found mine = refl
keep-update_first u v id (x ∷ xs) n other found mine =
    grind (arith, keep-update_first u v id xs n other)

keep-remove_first :
    (u v id : ℕ) (ns : List Notification) (n : Notification)
    → u ≢ v
    → find_notification id ns ≡ some n
    → n.user_id ≡ u
    → keep (is_for v) (remove_first (λ m. m.id == id) ns) ≡ keep (is_for v) ns
unfolding keep remove_first find_notification find_first
keep-remove_first u v id [] n other found mine = refl
keep-remove_first u v id (x ∷ xs) n other found mine =
    grind (arith, keep-remove_first u v id xs n other)

keep-update_many :
    (u v : ℕ) (ns : List Notification)
    → u ≢ v
    → keep (is_for v) (update_many (is_unread u) read ns) ≡ keep (is_for v) ns
unfolding keep update_many
keep-update_many u v [] other = refl
keep-update_many u v (x ∷ xs) other = grind (arith, keep-update_many u v xs other)

keep-others :
    (u v : ℕ) (ns : List Notification)
    → u ≢ v
    → keep (is_for v) (keep (λ m. not (is_for u m)) ns) ≡ keep (is_for v) ns
unfolding keep
keep-others u v [] other = refl
keep-others u v (x ∷ xs) other = grind (arith, keep-others u v xs other)

none_unread :
    (u : ℕ) (ns : List Notification) → keep (is_unread u) (update_many (is_unread u) read ns) ≡ []
unfolding keep update_many
none_unread u [] = refl
none_unread u (x ∷ xs) = ground (arith, none_unread u xs)

-- Whatever a user marks as read or deletes, one notification or all, the notifications of every other
-- user stay as they are; and after all were marked, the user has none unread.
mark_read-Own :
    (u v id : ℕ) (people : Directory)
    → u ≢ v
    → (keep (is_for v) (mark_read u (some id) people).1.notifications
        ≡ keep (is_for v) people.notifications)
      × (keep (is_for v) (mark_read u none people).1.notifications
          ≡ keep (is_for v) people.notifications)
      × (keep (is_for v) (delete_notification u id people).1.notifications
          ≡ keep (is_for v) people.notifications)
      × (keep (is_for v) (delete_all_notifications u people).notifications
          ≡ keep (is_for v) people.notifications)
      × ((get_notifications u 1 20 (mark_read u none people).1).unread_count ≡ 0)
unfolding mark_read delete_notification delete_all_notifications get_notifications
mark_read-Own u v id people other = (
  grind (arith, keep-update_first u v id people.notifications),
  keep-update_many u v people.notifications other,
  grind (arith, keep-remove_first u v id people.notifications),
  keep-others u v people.notifications other,
  ap length (none_unread u people.notifications),
)
