-- ===== src/Accounts/Login.antt =====
-- Registration, login and the check of a request, one after the other.
use auctionhaus.Prelude.{ℕ, ◌+◌, ◌≤◌, ◌<◌, ◌≡◌, none, some, arith}
use auctionhaus.Tx.{ok}
use auctionhaus.Accounts.{Role, User, Site, find_user, find_email}
use auctionhaus.Accounts.Crypto.{Crypto, IsSound}
use auctionhaus.Accounts.Session.{find_entry, cache_get, look_up, admit, authenticate}
use auctionhaus.Accounts.Auth.{new_user, generate_token, create_user, register, check_login, login}

-- What a registration that succeeds returns, and the state after it.
register-state :
    (C : Crypto) (salt now email password : ℕ) (u : User) (token : C.Token) (s s' : Site)
    → register C salt now email password s ≡ (ok (u, token), s')
    → (u ≡ new_user s.people.next_id email (C.hash salt password))
      × (s' ≡ create_user (new_user s.people.next_id email (C.hash salt password)) s)
unfolding register
register-state C salt now email password u token s s' done = (grind arith, grind arith)

find_email-create_user :
    (id email digest : ℕ) (s : Site)
    → find_email email (create_user (new_user id email digest) s).people.users
      ≡ some (new_user id email digest)
unfolding find_email create_user
find_email-create_user id email digest s = ground arith

find_user-create_user :
    (id email digest : ℕ) (s : Site)
    → find_user id (create_user (new_user id email digest) s).people.users
      ≡ some (new_user id email digest)
unfolding find_user create_user
find_user-create_user id email digest s = ground arith

login-new :
    (C : Crypto) (S : IsSound C) (salt now id email password : ℕ) (s : Site)
    → login C now email password (create_user (new_user id email (C.hash salt password)) s)
      ≡ ok (
        new_user id email (C.hash salt password),
        generate_token C now (new_user id email (C.hash salt password)),
      )
unfolding login check_login
login-new C S salt now id email password s =
    grind (
      arith,
      find_email-create_user id email (C.hash salt password) s,
      S.compare-hash salt password,
    )

authenticate-new :
    (C : Crypto) (S : IsSound C) (now later id email digest : ℕ) (s : Site)
    → find_entry id s.cache ≡ none
    → now ≤ later
    → later < now + C.lifetime
    → (authenticate C later
        (some (generate_token C now (new_user id email digest)))
        (create_user (new_user id email digest) s)).0
      ≡ ok (record { id = id; email = email; role = Role.user })
unfolding authenticate look_up cache_get admit create_user
authenticate-new C S now later id email digest s empty soon valid = grind (
  arith,
  find_user-create_user id email digest s,
  S.verify-sign now later (record { id = id; email = email; role = Role.user }) soon valid,
)

-- After a registration that succeeds, a login with the same address and password returns the same user
-- and a token, and a request with that token is let in as that user, from the login until the token's
-- lifetime is over, where the cache has no entry under the fresh id.
pub authenticate-login-register :
    (C : Crypto) (S : IsSound C) (salt t0 t1 t2 email password : ℕ) (u : User) (token : C.Token)
    (s s' : Site)
    → register C salt t0 email password s ≡ (ok (u, token), s')
    → find_entry s.people.next_id s.cache ≡ none
    → t1 ≤ t2
    → t2 < t1 + C.lifetime
    → (login C t1 email password s' ≡ ok (u, generate_token C t1 u))
      × ((authenticate C t2 (some (generate_token C t1 u)) s').0
          ≡ ok (record { id = u.id; email = email; role = u.role }))
unfolding authenticate
authenticate-login-register C S salt t0 t1 t2 email password u token s s' done empty soon valid =
    let (same, state) = register-state C salt t0 email password u token s s' done in
    rw (same, state)
      (
        login-new C S salt t1 s.people.next_id email password s,
        authenticate-new C S t1 t2 s.people.next_id email (C.hash salt password) s empty soon valid,
      )
