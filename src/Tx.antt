-- ===== src/Tx.antt =====
-- How the services run: state passing with errors. `createError(message, status)` is a constructor
-- of `Error`, a service throws by returning `err`, and `prisma.$transaction` (`transaction` below)
-- puts the tables back when its body throws. What a body sends (notifications, socket messages,
-- queue jobs) is not taken back. `now` is one reading of the clock for the whole call.
use auctionhaus.Prelude.{ℕ, leb, ◌==◌, Bool, Option, none, some, List, [], ◌∷◌, if◌then◌else◌}
use auctionhaus.Schema.{Wallet, Auction, NotificationType}
use auctionhaus.Store.{Db, find_wallet, find_auction}

pub data Error : Type 0 where
  auction_not_found auction_not_active own_auction auction_ended : Error
  below_minimum not_exact_price not_above_starting insufficient_available : Error
  payer_wallet_not_found seller_wallet_not_found insufficient_balance : Error
  wallet_not_found auto_bid_wallet_not_found not_positive over_deposit_limit : Error
  not_authorized already_ended already_cancelled no_buy_now_price : Error
  not_winner not_ended winning_bid_not_found : Error
  auto_bid_on_sealed auto_accept_not_below auto_accept_below_reserve max_not_above : Error
  end_not_after_start dutch_needs_step : Error
  not_sealed bad_hash no_commitment already_revealed reveal_mismatch : Error
  stream_saturated not_yours not_pending : Error
  user_not_found suspend_admin email_taken invalid_credentials account_suspended : Error
  no_token invalid_token unknown_user admin_required : Error
  own_rating bad_score already_rated not_in_watchlist notification_not_found : Error
  -- the client's own errors: a row that an update needs is missing, or a null is dereferenced
  record_not_found null_reference : Error

-- The second argument of `createError`; the client's own errors end as 500.
pub status_code : Error → ℕ
status_code auction_not_found = 404
status_code own_auction = 403
status_code no_token = 401
status_code invalid_token = 401
status_code unknown_user = 401
status_code admin_required = 403
status_code payer_wallet_not_found = 404
status_code seller_wallet_not_found = 404
status_code wallet_not_found = 404
status_code not_authorized = 403
status_code not_winner = 403
status_code winning_bid_not_found = 404
status_code no_commitment = 404
status_code stream_saturated = 503
status_code not_yours = 403
status_code user_not_found = 404
status_code email_taken = 409
status_code invalid_credentials = 401
status_code account_suspended = 403
status_code already_rated = 409
status_code not_in_watchlist = 404
status_code notification_not_found = 404
status_code record_not_found = 500
status_code null_reference = 500
status_code _ = 400

pub data Result {ℓ} (A : Type ℓ) : Type ℓ where
  ok : A → Result A
  err : Error → Result A

-- `SELECT … FOR UPDATE` on one row.
pub data Lock : Type 0 where
  auction_row wallet_row : ℕ → Lock

pub data Event : Type 0 where
  notify : ℕ → NotificationType → Event
  auction_extended : ℕ → ℕ → Event
  auction_closed : ℕ → Option ℕ → Option ℕ → Bool → Event
  price_drop : ℕ → ℕ → Event
  auction_started : ℕ → Event
  start_job end_job : ℕ → ℕ → Event
  drop_price_job : ℕ → ℕ → ℕ → Event
  ladder_job : ℕ → ℕ → Event
  -- the auction, each step's bid, amount and bidder, the final price and the last bid
  bid_ladder : ℕ → List (ℕ × ℕ × ℕ) → ℕ → ℕ → Event
  -- the auction, the bid, its amount and bidder where they are sent, and the mark `sealed`
  bid_new : ℕ → ℕ → Option ℕ → Option ℕ → Bool → Event
  backpressure : ℕ → ℕ → Event
  user_invalidate : ℕ → Event

-- `locks` are those of the transaction that runs, the last one first; so is `outbox`.
pub record World : Type 0 where
  pub db : Db
  pub locks : List Lock
  pub outbox : List Event

abbrev pub Tx : Type 0 → Type 0
Tx A = World → Result A × World

module _ {A : Type 0} where
  abbrev pub pure : A → Tx A
  pure a w = (ok a, w)

  abbrev pub raise : Error → Tx A
  raise e w = (err e, w)

  abbrev pub gets : (Db → A) → Tx A
  gets f w = (ok (f w.db), w)

  abbrev pub or_raise : Option A → Error → Tx A
  or_raise none e w = (err e, w)
  or_raise (some a) e w = (ok a, w)

  -- `prisma.$transaction(body)`
  abbrev pub transaction : Tx A → Tx A
  transaction body w =
      let (r, w') = body (record w { locks = [] }) in
      elim r [ ok a ↦ (ok a, w') | err e ↦ (err e, record w' { db = w.db }) ]

infixl 5 ◌>>=◌ ◌>>◌
abbrev pub ◌>>=◌ : {A B : Type 0} → Tx A → (A → Tx B) → Tx B
◌>>=◌ m f w = let (r, w') = m w in elim r [ ok a ↦ f a w' | err e ↦ (err e, w') ]

abbrev pub ◌>>◌ : {A B : Type 0} → Tx A → Tx B → Tx B
m >> k = m >>= λ _. k

abbrev pub guard : Bool → Error → Tx (Unit {0})
guard b e w = (if b then ok tt else err e, w)

abbrev pub modify : (Db → Db) → Tx (Unit {0})
modify f w = (ok tt, record w { db = f w.db })

abbrev pub emit : Event → Tx (Unit {0})
emit e w = (ok tt, record w { outbox = e ∷ w.outbox })

abbrev pub when : Bool → Tx (Unit {0}) → Tx (Unit {0})
when b m w = if b then m w else (ok tt, w)

abbrev pub lock : Lock → Tx (Unit {0})
lock l w = (ok tt, record w { locks = l ∷ w.locks })

-- Both wallets of a pair of users in ascending order: `[a, b].sort()`, then a lock for each.
abbrev pub lock_pair : ℕ → ℕ → Tx (Unit {0})
lock_pair a b w = (
  ok tt,
  record w {
    locks =
        if leb a b
        then wallet_row b ∷ wallet_row a ∷ w.locks
        else wallet_row a ∷ wallet_row b ∷ w.locks;
  },
)

-- The auction row is locked and read; a row that is not there ends the call.
unfoldable pub lock_auction : ℕ → Tx Auction
unfolding find_auction
lock_auction id w =
    or_raise (find_auction id w.db.auctions) auction_not_found
      (record w { locks = auction_row id ∷ w.locks })

unfoldable pub wallet_or : Error → ℕ → Tx Wallet
unfolding find_wallet
wallet_or e uid w = or_raise (find_wallet uid w.db.wallets) e w

unfoldable pub insert_id : ℕ → List ℕ → List ℕ
insert_id i [] = i ∷ []
insert_id i (j ∷ js) =
    let rest = insert_id i js in if i == j then j ∷ js else if leb i j then i ∷ j ∷ js else j ∷ rest

-- `Array.from(new Set(ids)).sort()`
unfoldable pub sort_ids : List ℕ → List ℕ
unfolding insert_id
sort_ids [] = []
sort_ids (i ∷ is) = insert_id i (sort_ids is)

-- A lock on each wallet of a list, in its order.
unfoldable pub wallet_locks : List ℕ → List Lock → List Lock
wallet_locks [] ls = ls
wallet_locks (uid ∷ uids) ls = wallet_locks uids (wallet_row uid ∷ ls)

abbrev pub lock_all : List ℕ → Tx (Unit {0})
lock_all uids w = (ok tt, record w { locks = wallet_locks uids w.locks })
