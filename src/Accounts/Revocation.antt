-- ===== src/Accounts/Revocation.antt =====
-- How long a suspended user can get in on one instance of the server: not at all after a suspension
-- that this instance made, and for the lifetime of a cache entry after one that it did not hear of.
use auctionhaus.Prelude.{
  ℕ, ◌+◌, ◌≤◌, ◌<◌, ◌≡◌, ◌≢◌, ◌⊎◌, inl, inr, refl, Bool, true, not, ◌||◌, ◌&&◌, leb, ◌==◌, Option,
  none, some, List, [], ◌∷◌, keep, find_first, update_first, arith, Option-cases,
}
use auctionhaus.Tx.{ok, err, account_suspended, unknown_user}
use auctionhaus.Accounts.{User, CachedUser, CacheEntry, Site, find_user, update_user}
use auctionhaus.Accounts.Crypto.{Crypto, Claims}
use auctionhaus.Accounts.Session.{
  user_cache_ttl_ms, invalidate_user, find_entry, cache_get, cache_set, selected, look_up, admit,
  authenticate,
}
use auctionhaus.Accounts.Admin.{suspend_user, on_invalidate}

find_entry-invalidate_user :
    (id : ℕ) (cache : List CacheEntry) → find_entry id (invalidate_user id cache) ≡ none
unfolding find_entry invalidate_user find_first keep
find_entry-invalidate_user id [] = refl
find_entry-invalidate_user id (e ∷ es) = grind (arith, find_entry-invalidate_user id es)

-- A user's row after a change of it, and of another's.
find_user-update :
    (id : ℕ) (suspend : Bool) (us : List User) (u : User)
    → find_user id us ≡ some u
    → find_user id (update_user id (λ v. record v { is_suspended = suspend }) us)
      ≡ some (record u { is_suspended = suspend })
unfolding find_user update_user find_first update_first
find_user-update id suspend [] u found = grind arith
find_user-update id suspend (x ∷ xs) u found = grind (arith, find_user-update id suspend xs u)

find_user-other :
    (id j : ℕ) (suspend : Bool) (us : List User)
    → j ≢ id
    → find_user id (update_user j (λ v. record v { is_suspended = suspend }) us) ≡ find_user id us
unfolding find_user update_user find_first update_first
find_user-other id j suspend [] other = refl
find_user-other id j suspend (x ∷ xs) other = grind (arith, find_user-other id j suspend xs)

-- After a suspension that an instance has made, the next request of that user there is refused as
-- suspended, at whatever time and with whatever good token.
authenticate-suspend_user :
    (C : Crypto) (now : ℕ) (token : C.Token) (payload : Claims) (s s' : Site)
    → suspend_user payload.id true s ≡ (ok tt, s')
    → C.verify now token ≡ some payload
    → (authenticate C now (some token) s').0 ≡ err account_suspended
unfolding suspend_user authenticate look_up cache_get admit
authenticate-suspend_user C now token payload s s' suspended good = grind (
  arith,
  find_entry-invalidate_user payload.id s.cache,
  find_user-update payload.id true s.people.users,
)

-- An entry of the cache that lets user `id` in is over by `limit`.
unfoldable pub is_over : ℕ → ℕ → CacheEntry → Bool
is_over id limit e = not (e.user.id == id) || e.user.is_suspended || leb e.expires_at limit

-- The row of user `id`, if there is one, is suspended.
unfoldable pub is_out : ℕ → List User → Bool
unfolding find_user
is_out id us = elim (find_user id us) [ none ↦ true | some u ↦ u.is_suspended ]

-- What happens at one instance as time goes by: requests with any token, suspensions and their
-- reversal here, and elsewhere with or without the message to this instance. Nobody reinstates user
-- `id`.
pub data Step (C : Crypto) (id : ℕ) : ℕ × Site → ℕ × Site → Type 0 where
  wait : (now n : ℕ) (s : Site) → Step C id (now, s) (now + n, s)
  request :
      (now : ℕ) (token : Option C.Token) (s : Site)
      → Step C id (now, s) (now, (authenticate C now token s).1)
  suspension_here :
      (now j : ℕ) (suspend : Bool) (s : Site)
      → (j ≡ id → suspend ≡ true)
      → Step C id (now, s) (now, (suspend_user j suspend s).1)
  suspension_elsewhere :
      (now j : ℕ) (suspend : Bool) (s : Site)
      → (j ≡ id → suspend ≡ true)
      → Step C id
          (now, s)
          (
            now,
            record s {
              people = record s.people {
                users = update_user j (λ v. record v { is_suspended = suspend }) s.people.users;
              };
            },
          )
  message : (now j : ℕ) (s : Site) → Step C id (now, s) (now, on_invalidate j s)

pub data Run (C : Crypto) (id : ℕ) (start : ℕ × Site) : ℕ × Site → Type 0 where
  here : Run C id start start
  next : {t u : ℕ × Site} → Run C id start t → Step C id t u → Run C id start u

unfoldable pub all_over : ℕ → ℕ → List CacheEntry → Bool
all_over id limit [] = true
all_over id limit (e ∷ es) = is_over id limit e && all_over id limit es

-- From the time `since` of a suspension on.
pub record IsRevoked (id since : ℕ) (t : ℕ × Site) : Type 0 where
  pub time : since ≤ t.0
  pub row : is_out id t.1.people.users ≡ true
  pub entries : all_over id (since + user_cache_ttl_ms) t.1.cache ≡ true

module _ (id limit : ℕ) where
  over-keep :
      (p : CacheEntry → Bool) (es : List CacheEntry)
      → all_over id limit es ≡ true
      → all_over id limit (keep p es) ≡ true
  unfolding keep all_over
  over-keep p [] all = refl
  over-keep p (e ∷ es) all = ground (arith, over-keep p es)

  over-find :
      (j : ℕ) (es : List CacheEntry) (e : CacheEntry)
      → all_over id limit es ≡ true
      → find_entry j es ≡ some e
      → (is_over id limit e ≡ true) × (e.user.id ≡ j)
  unfolding find_entry find_first all_over
  over-find j [] e all found = grind arith
  over-find j (x ∷ xs) e all found = grind (arith, over-find j xs e)

  find_user-id : (j : ℕ) (us : List User) (u : User) → find_user j us ≡ some u → u.id ≡ j
  unfolding find_user find_first
  find_user-id j [] u found = grind arith
  find_user-id j (x ∷ xs) u found = grind (arith, find_user-id j xs u)

  over-selected :
      (j now : ℕ) (us : List User) (u : User)
      → is_out id us ≡ true
      → find_user j us ≡ some u
      → is_over id limit (record { user = selected u; expires_at = now + user_cache_ttl_ms }) ≡ true
  unfolding is_out is_over
  over-selected j now us u out found = grind (arith, find_user-id j us u)

  over-look_up :
      (j now : ℕ) (s : Site)
      → is_out id s.people.users ≡ true
      → all_over id limit s.cache ≡ true
      → all_over id limit (look_up j now s).1.cache ≡ true
  unfolding look_up cache_get cache_set invalidate_user all_over
  over-look_up j now s out all = grind (arith, over-keep, over-selected)

  out-update :
      (j : ℕ) (suspend : Bool) (us : List User)
      → (j ≡ id → suspend ≡ true)
      → is_out id us ≡ true
      → is_out id (update_user j (λ v. record v { is_suspended = suspend }) us) ≡ true
  unfolding is_out find_user update_user find_first update_first
  out-update j suspend [] keeps out = refl
  out-update j suspend (x ∷ xs) keeps out = grind (arith, out-update j suspend xs keeps)

-- Past the limit, what the look-up of the user finds is suspended.
late-look_up :
    (id limit now : ℕ) (s : Site)
    → is_out id s.people.users ≡ true
    → all_over id limit s.cache ≡ true
    → limit < now
    → (u : CachedUser) → (look_up id now s).0 ≡ some u
    → u.is_suspended ≡ true
unfolding look_up cache_get is_out is_over
late-look_up id limit now s out all late u found = elim (Option-cases (find_entry id s.cache)) [
  | inl empty ↦ grind arith
  | inr (e, hit) ↦ let (over, mine) = over-find id limit id s.cache e all hit in grind arith
]

people-look_up : (j now : ℕ) (s : Site) → (look_up j now s).1.people ≡ s.people
unfolding look_up cache_get
people-look_up j now s = ground arith

Step-IsRevoked :
    (C : Crypto) (id since : ℕ) {t u : ℕ × Site}
    → Step C id t u
    → IsRevoked id since t
    → IsRevoked id since u
unfolding authenticate suspend_user on_invalidate invalidate_user
Step-IsRevoked C id since (wait now n s) r = record {
  time = omega (arith, r.time);
  row = r.row;
  entries = r.entries;
}
Step-IsRevoked C id since (request now token s) r = record {
  time = r.time;
  row = grind (arith, people-look_up);
  entries = grind (arith, over-look_up);
}
Step-IsRevoked C id since (suspension_here now j suspend s keeps) r = record {
  time = r.time;
  row = grind (arith, out-update);
  entries = grind (arith, over-keep);
}
Step-IsRevoked C id since (suspension_elsewhere now j suspend s keeps) r = record {
  time = r.time;
  row = out-update id since j suspend s.people.users keeps r.row;
  entries = r.entries;
}
Step-IsRevoked C id since (message now j s) r = record {
  time = r.time;
  row = r.row;
  entries = over-keep id (since + user_cache_ttl_ms) _ s.cache r.entries;
}

Run-IsRevoked :
    (C : Crypto) (id since : ℕ) {t u : ℕ × Site}
    → Run C id t u
    → IsRevoked id since t
    → IsRevoked id since u
Run-IsRevoked C id since here r = r
Run-IsRevoked C id since (next before step) r =
    Step-IsRevoked C id since step (Run-IsRevoked C id since before r)

-- Once a user's row is suspended, anywhere, an instance whose cache has no entry for the user that
-- outlives the suspension by more than the lifetime of an entry refuses the user's requests from that
-- lifetime on, whatever requests, suspensions and messages it saw since, unless the user was reinstated.
pub authenticate-revoked :
    (C : Crypto) (since now : ℕ) (token : C.Token) (payload : Claims) (start : ℕ × Site) (s : Site)
    → IsRevoked payload.id since start
    → Run C payload.id start (now, s)
    → since + user_cache_ttl_ms < now
    → C.verify now token ≡ some payload
    → ((authenticate C now (some token) s).0 ≡ err account_suspended)
      ⊎ ((authenticate C now (some token) s).0 ≡ err unknown_user)
unfolding authenticate admit
authenticate-revoked C since now token payload start s revoked run late good =
    let r = Run-IsRevoked C payload.id since run revoked in
    let suspended =
      late-look_up payload.id (since + user_cache_ttl_ms) now s r.row r.entries late in
    grind (arith, suspended)
