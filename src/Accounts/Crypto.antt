-- ===== src/Accounts/Crypto.antt =====
-- What the services use of bcrypt and of JSON web tokens, and what they rely on.
use auctionhaus.Prelude.{ℕ, ◌+◌, ◌≡◌, ◌≤◌, ◌<◌, Bool, true, Option, some}
use auctionhaus.Accounts.{Role}

pub record Claims : Type 0 where
  pub id : ℕ
  pub email : ℕ
  pub role : Role

-- `hash` takes the salt it draws, and `sign` and `verify` the time they read. `lifetime` is
-- JWT_EXPIRES_IN.
pub record Crypto : Type 1 where
  pub Token : Type 0
  pub hash : ℕ → ℕ → ℕ
  pub compare : ℕ → ℕ → Bool
  pub sign : ℕ → Claims → Token
  pub verify : ℕ → Token → Option Claims
  pub lifetime : ℕ

-- What the two packages document: a password matches its own digest, and a token is good for its
-- lifetime.
pub record IsSound (C : Crypto) : Type 0 where
  pub compare-hash : (salt password : ℕ) → C.compare password (C.hash salt password) ≡ true
  pub verify-sign :
      (now later : ℕ) (c : Claims)
      → now ≤ later
      → later < now + C.lifetime
      → C.verify later (C.sign now c) ≡ some c
