-- ===== src/Accounts/Tests.antt =====
-- A site with two users, and the theorems at it. The tokens are the signed times and claims themselves.
use auctionhaus.Prelude.{
  ℕ, ◌+◌, ◌≡◌, ◌⊎◌, refl, Bool, true, false, none, some, [], ◌∷◌, ◌&&◌, leb, ltb, ◌==◌, ==_refl,
  if◌then◌else◌, keep, find_first, arith,
}
use auctionhaus.Schema.{NotificationType}
use auctionhaus.Tx.{ok, err, account_suspended, unknown_user}
use auctionhaus.Scenario.{alice, bob, opened}
use auctionhaus.Accounts.{Role, User, Rating, Notification, Site, find_user, find_email}
use auctionhaus.Accounts.Crypto.{Crypto, Claims, IsSound}
use auctionhaus.Accounts.Session.{find_entry, authenticate, look_up, cache_get, admit}
use auctionhaus.Accounts.Auth.{register, new_user, login}
use auctionhaus.Accounts.Users.{rate_user, sum_scores}
use auctionhaus.Accounts.Revocation.{
  IsRevoked, Run, wait, request, next, here, is_out, is_over, all_over, authenticate-revoked,
}
use auctionhaus.Accounts.Login.{authenticate-login-register}
use auctionhaus.Accounts.Ratings.{IsRated, rate_user-IsRated}

plain : Crypto
plain = record {
  Token = ℕ × Claims;
  hash = λ salt password. password;
  compare = λ password digest. password == digest;
  sign = λ now c. (now, c);
  verify = λ now t. if leb t.0 now && ltb now (t.0 + 1000) then some t.1 else none;
  lifetime = 1000;
}

plain-IsSound : IsSound plain
unfolding plain
plain-IsSound = record {
  compare-hash = λ salt password. ==_refl password;
  verify-sign = λ now later c before valid. ground arith;
}

abbrev person : ℕ → Role → Bool → User
person id role suspended = record {
  id = id;
  email = 100 + id;
  password = some 7;
  role = role;
  rating_sum = 0;
  rating_count = 0;
  is_suspended = suspended;
}

abbrev note : ℕ → ℕ → Notification
note id user_id = record {
  id = id;
  user_id = user_id;
  kind = NotificationType.general;
  is_read = false;
}

abbrev site : Site
site = record {
  world = opened;
  people = record {
    users = person bob Role.user false ∷ person alice Role.user false ∷ [];
    ratings = [];
    watchlist = [];
    notifications = note 52 alice ∷ note 51 bob ∷ note 50 alice ∷ [];
    next_id = 60;
  };
  cache =
      record {
        user = record { id = bob; email = 103; role = Role.user; is_suspended = false };
        expires_at = 30005;
      }
      ∷ [];
}

abbrev bob_claims : Claims
bob_claims = record { id = bob; email = 103; role = Role.user }

abbrev bob_token : ℕ × Claims
bob_token = (0, bob_claims)

abbrev five : Rating
five = record { rater_id = alice; ratee_id = bob; auction_id = 10; score = 5 }

site-IsRated : IsRated site.people
unfolding find_user find_first sum_scores keep
site-IsRated = record {
  scores = tt;
  once = λ a b c. omega arith;
  averages = λ id u found. grind arith;
}

rate_user-IsRated_example : IsRated (rate_user five site.people).1
rate_user-IsRated_example = rate_user-IsRated five site.people site-IsRated

-- The same users after a suspension of Bob at time 5, of which this instance was not told.
abbrev unaware : Site
unaware = record site {
  people = record site.people {
    users = person bob Role.user true ∷ person alice Role.user false ∷ [];
  };
}

unaware-IsRevoked : IsRevoked bob 5 (5, unaware)
unfolding is_out is_over all_over find_user
unaware-IsRevoked = record { time = omega arith; row = refl; entries = refl }

-- Bob is let in from the cache at time 10, and time goes on.
after_request : Site
unfolding plain
after_request = (authenticate plain 10 (some bob_token) unaware).1

let_in : unfold plain in (authenticate plain 10 (some bob_token) unaware).0 ≡ ok bob_claims
unfolding plain authenticate look_up cache_get find_entry find_first admit
let_in = refl

unaware-Run : Run plain bob (5, unaware) (40000, after_request)
unfolding after_request plain
unaware-Run =
    next (next (next here (wait 5 5 unaware)) (request 10 (some bob_token) unaware))
      (wait 10 39990 (authenticate plain 10 (some bob_token) unaware).1)

authenticate-revoked_example :
    unfold plain in
    (((authenticate plain 40000 (some (39500, bob_claims)) after_request).0 ≡ err account_suspended)
      ⊎ ((authenticate plain 40000 (some (39500, bob_claims)) after_request).0 ≡ err unknown_user))
unfolding plain
authenticate-revoked_example =
    authenticate-revoked plain 5 40000 (39500, bob_claims) bob_claims (5, unaware) after_request
      unaware-IsRevoked unaware-Run (omega arith) refl

carol : User
carol = new_user 60 105 9

authenticate-login-register_example :
    unfold plain in
    ((login plain 20 105 9 (register plain 1 10 105 9 site).1
        ≡ ok (carol, (20, record { id = 60; email = 105; role = Role.user })))
      × ((authenticate plain 30
            (some (20, record { id = 60; email = 105; role = Role.user }))
            (register plain 1 10 105 9 site).1).0
          ≡ ok (record { id = 60; email = 105; role = Role.user })))
unfolding plain carol register find_email find_first find_entry
authenticate-login-register_example =
    authenticate-login-register plain plain-IsSound 1 10 20 30 105 9 carol
      (10, record { id = 60; email = 105; role = Role.user }) site
      (register plain 1 10 105 9 site).1 refl refl (omega arith) (omega arith)
