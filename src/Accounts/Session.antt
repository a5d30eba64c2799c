-- ===== src/Accounts/Session.antt =====
-- back/src/middleware/auth.middleware.ts: the cache of users and the check of each request.
use auctionhaus.Prelude.{
  ℕ, ◌+◌, not, Option, none, some, List, ◌∷◌, ltb, ◌==◌, if◌then◌else◌, keep, find_first,
}
use auctionhaus.Tx.{
  Result, ok, err, no_token, invalid_token, unknown_user, account_suspended, admin_required,
}
use auctionhaus.Accounts.{is_admin, User, CachedUser, CacheEntry, Site, find_user}
use auctionhaus.Accounts.Crypto.{Crypto, Claims}

abbrev pub user_cache_ttl_ms : ℕ
user_cache_ttl_ms = 30000

-- `userCache.delete`
unfoldable pub invalidate_user : ℕ → List CacheEntry → List CacheEntry
unfolding keep
invalidate_user user_id = keep (λ e. not (e.user.id == user_id))

unfoldable pub find_entry : ℕ → List CacheEntry → Option CacheEntry
unfolding find_first
find_entry user_id = find_first (λ e. e.user.id == user_id)

-- `cacheGet`: an entry that is over its time is deleted.
unfoldable pub cache_get : ℕ → ℕ → List CacheEntry → Option CachedUser × List CacheEntry
unfolding invalidate_user find_entry
cache_get user_id now cache = elim (find_entry user_id cache) [
  | none ↦ (none, cache)
  | some e ↦
      if ltb e.expires_at now then (none, invalidate_user user_id cache) else (some e.user, cache)
]

-- `cacheSet`
unfoldable pub cache_set : CachedUser → ℕ → List CacheEntry → List CacheEntry
unfolding invalidate_user
cache_set u now cache =
    record { user = u; expires_at = now + user_cache_ttl_ms } ∷ invalidate_user u.id cache

-- The columns that the check selects.
abbrev pub selected : User → CachedUser
selected u = record { id = u.id; email = u.email; role = u.role; is_suspended = u.is_suspended }

-- What is in the cache, or else in the table, which is then cached.
unfoldable pub look_up : ℕ → ℕ → Site → Option CachedUser × Site
unfolding cache_get cache_set find_user
look_up user_id now s =
    let (cached, kept) = cache_get user_id now s.cache in
    elim cached [
      | some u ↦ (some u, record s { cache = kept })
      | none ↦ elim (find_user user_id s.people.users) [
        | none ↦ (none, record s { cache = kept })
        | some u ↦ (some (selected u), record s { cache = cache_set (selected u) now kept })
      ]
    ]

-- The last check, and `req.user`.
unfoldable pub admit : CachedUser → Result Claims
admit u =
    if u.is_suspended
    then err account_suspended
    else ok (record { id = u.id; email = u.email; role = u.role })

-- `authenticate`, with the token of the header where it carries one.
unfoldable pub authenticate : (C : Crypto) → ℕ → Option C.Token → Site → Result Claims × Site
unfolding look_up admit
authenticate C now none s = (err no_token, s)
authenticate C now (some token) s = elim (C.verify now token) [
  | none ↦ (err invalid_token, s)
  | some payload ↦
      (let (found, s') = look_up payload.id now s in
        elim found [ none ↦ (err unknown_user, s') | some u ↦ (admit u, s') ])
]

-- `requireAdmin`
unfoldable pub require_admin : Option Claims → Result Claims
require_admin none = err admin_required
require_admin (some c) = if is_admin c.role then ok c else err admin_required
