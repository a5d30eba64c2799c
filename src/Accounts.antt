-- ===== src/Accounts.antt =====
-- The tables around the users (back/prisma/schema.prisma), and one instance of the server: the tables
-- and the cache of back/src/middleware/auth.middleware.ts. E-mail addresses, passwords and
-- digests are texts that are only compared or handed on: they are named by numbers.
pub mod Crypto
pub mod Session
pub mod Auth
pub mod Admin
pub mod Users
pub mod Watchlist
pub mod Notifications
pub mod Revocation
pub mod Login
pub mod Ratings
pub mod Dashboard
mod Tests
use auctionhaus.Prelude.{
  ℕ, ◌+◌, Bool, true, false, Option, List, [], ◌∷◌, ◌==◌, find_first, update_first,
}
use auctionhaus.Schema.{NotificationType}
use auctionhaus.Tx.{World}

pub data Role : Type 0 where
  user admin : Role

abbrev pub is_admin : Role → Bool
is_admin user = false
is_admin admin = true

-- The average `rating` of the scores is kept as their sum, which `rating_count` divides.
pub record User : Type 0 where
  pub id : ℕ
  pub email : ℕ
  pub password : Option ℕ
  pub role : Role
  pub rating_sum : ℕ
  pub rating_count : ℕ
  pub is_suspended : Bool

pub record Rating : Type 0 where
  pub rater_id : ℕ
  pub ratee_id : ℕ
  pub auction_id : ℕ
  pub score : ℕ

pub record WatchlistItem : Type 0 where
  pub user_id : ℕ
  pub auction_id : ℕ

pub record Notification : Type 0 where
  pub id : ℕ
  pub user_id : ℕ
  pub kind : NotificationType
  pub is_read : Bool

-- Rows stand newest first.
pub record Directory : Type 0 where
  pub users : List User
  pub ratings : List Rating
  pub watchlist : List WatchlistItem
  pub notifications : List Notification
  pub next_id : ℕ

-- `CachedUser`
pub record CachedUser : Type 0 where
  pub id : ℕ
  pub email : ℕ
  pub role : Role
  pub is_suspended : Bool

-- An entry of `userCache`, whose key is the user's id.
pub record CacheEntry : Type 0 where
  pub user : CachedUser
  pub expires_at : ℕ

pub record Site : Type 0 where
  pub world : World
  pub people : Directory
  pub cache : List CacheEntry

-- `user.findUnique({ where: { id } })`
unfoldable pub find_user : ℕ → List User → Option User
unfolding find_first
find_user id = find_first (λ u. u.id == id)

-- `user.findUnique({ where: { email } })`
unfoldable pub find_email : ℕ → List User → Option User
unfolding find_first
find_email email = find_first (λ u. u.email == email)

-- `user.update({ where: { id } })`
unfoldable pub update_user : ℕ → (User → User) → List User → List User
unfolding update_first
update_user id f = update_first (λ u. u.id == id) f
