-- ===== src/Accounts/Auth.antt =====
-- `register`, `login` and `getMe` of back/src/modules/auth/auth.service.ts.
use auctionhaus.Prelude.{ℕ, ◌+◌, false, ℤ, pos, Option, none, some, ◌∷◌, if◌then◌else◌}
use mathlib.Core.Option
use auctionhaus.Store.{find_wallet}
use auctionhaus.Tx.{
  Result, ok, err, email_taken, invalid_credentials, account_suspended, user_not_found,
}
use auctionhaus.Accounts.{Role, User, Site, find_user, find_email}
use auctionhaus.Accounts.Crypto.{Crypto}

-- `generateToken`
abbrev pub generate_token : (C : Crypto) → ℕ → User → C.Token
generate_token C now u = C.sign now (record { id = u.id; email = u.email; role = u.role })

-- The row that `register` creates, with the column's defaults.
abbrev pub new_user : ℕ → ℕ → ℕ → User
new_user id email digest = record {
  id = id;
  email = email;
  password = some digest;
  role = Role.user;
  rating_sum = 0;
  rating_count = 0;
  is_suspended = false;
}

-- The user's row and an empty wallet.
unfoldable pub create_user : User → Site → Site
create_user u s = record s {
  world = record s.world {
    db = record s.world.db {
      wallets =
          record { user_id = u.id; balance = pos 0; held_amount = pos 0 } ∷ s.world.db.wallets;
    };
  };
  people = record s.people { users = u ∷ s.people.users; next_id = s.people.next_id + 1 };
}

-- `register`, with the salt that bcrypt draws.
unfoldable pub register : (C : Crypto) → ℕ → ℕ → ℕ → ℕ → Site → Result (User × C.Token) × Site
unfolding find_email create_user
register C salt now email password s =
    let u = new_user s.people.next_id email (C.hash salt password) in
    elim (find_email email s.people.users) [
      | some _ ↦ (err email_taken, s)
      | none ↦ (ok (u, generate_token C now u), create_user u s)
    ]

-- The checks of `login` on a user with a password.
unfoldable pub check_login : (C : Crypto) → ℕ → ℕ → User → ℕ → Result (User × C.Token)
check_login C now password u digest =
    if u.is_suspended
    then err account_suspended
    else if C.compare password digest
    then ok (u, generate_token C now u)
    else err invalid_credentials

-- `login`
unfoldable pub login : (C : Crypto) → ℕ → ℕ → ℕ → Site → Result (User × C.Token)
unfolding check_login find_email
login C now email password s = elim (find_email email s.people.users) [
  | none ↦ err invalid_credentials
  | some u ↦ elim u.password [
    | none ↦ err invalid_credentials
    | some digest ↦ check_login C now password u digest
  ]
]

pub record Me : Type 0 where
  pub id : ℕ
  pub email : ℕ
  pub role : Role
  pub rating_sum : ℕ
  pub rating_count : ℕ
  pub wallet : Option (ℤ × ℤ)

-- `getMe`
unfoldable pub get_me : ℕ → Site → Result Me
unfolding find_user find_wallet
get_me user_id s = elim (find_user user_id s.people.users) [
  | none ↦ err user_not_found
  | some u ↦ ok (record {
    id = u.id;
    email = u.email;
    role = u.role;
    rating_sum = u.rating_sum;
    rating_count = u.rating_count;
    wallet = Option.map (λ w. (w.balance, w.held_amount)) (find_wallet user_id s.world.db.wallets);
  })
]
