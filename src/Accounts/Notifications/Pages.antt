-- ===== src/Accounts/Notifications/Pages.antt =====
-- The pages of an inbox.
use auctionhaus.Prelude.{
  ℕ, zero, suc, ◌+◌, ◌-◌, ◌*◌, ◌≤◌, ◌≡◌, refl, ◌∙◌, List, [], ◌++◌, keep, first_n, first_n-add,
  first_n-all, arith,
}
use native.Mathlib.Nat.{suc-mul}
use auctionhaus.Accounts.{Notification, Directory}
use auctionhaus.Accounts.Notifications.{is_for, get_notifications}

-- The first so many pages, one after the other.
unfoldable pub pages : ℕ → ℕ → ℕ → Directory → List Notification
pages user_id limit zero people = []
pages user_id limit (suc n) people =
    pages user_id limit n people ++ (get_notifications user_id (suc n) limit people).notifications

pages-first :
    (user_id limit n : ℕ) (people : Directory)
    → pages user_id limit n people
      ≡ first_n (n * limit) (keep (is_for user_id) people.notifications)
unfolding pages get_notifications first_n
pages-first user_id limit zero people = let e : 0 * limit ≡ 0 = omega arith in rw e refl
pages-first user_id limit (suc n) people =
    let own = keep (is_for user_id) people.notifications in
    let e : suc n * limit ≡ n * limit + limit = suc-mul n limit in
    let p : suc n - 1 ≡ n = omega arith in
    rw (e, p, pages-first user_id limit n people, first_n-add (n * limit) limit own) refl

-- Pages of any size, enough for the total that each of them names, show every notification of the
-- user once, in their order.
pages_all :
    (user_id limit n : ℕ) (people : Directory)
    → (get_notifications user_id 1 limit people).total ≤ n * limit
    → pages user_id limit n people ≡ keep (is_for user_id) people.notifications
unfolding get_notifications
pages_all user_id limit n people enough =
    pages-first user_id limit n people
    ∙ first_n-all (n * limit) (keep (is_for user_id) people.notifications) enough
