-- ===== src/Bidding/Money.antt =====
-- No bid makes or loses money: placed or refused, settled at once or not.
use auctionhaus.Prelude.{ℕ, ◌≡◌, refl, Bool, ℤ, pos, neg, List, [], ◌∷◌, arith, int_laws}
use auctionhaus.Schema.{Wallet, Auction, Bid}
use auctionhaus.Store.{Db, adjust, update_auction, set_bid_status}
use auctionhaus.Store.Wallets.{total_balance}
use auctionhaus.Escrow.Money.{settle-total_any}
use auctionhaus.Tx.{World, wallet_or, lock_auction}
use auctionhaus.Bidding.{
  check_amount, validate, lock_wallets, check_wallet, release_bid, release_previous, hold_bid,
  settle_dutch, accept_bid, place_bid,
}
use auctionhaus.Bidding.Effect.{wallets-release_bid, wallets-hold_bid}

-- A change of a hold, also of nobody's.
total_balance-adjust_hold :
    (uid : ℕ) (hold : ℤ) (ws : List Wallet)
    → total_balance (adjust uid (pos 0) hold ws) ≡ total_balance ws
unfolding total_balance adjust
total_balance-adjust_hold uid hold [] = refl
total_balance-adjust_hold uid hold (x ∷ ws) =
    grind (int_laws, total_balance-adjust_hold uid hold ws)

total_balance-release_bid :
    (b : Bid) (db : Db) → total_balance (release_bid b db).wallets ≡ total_balance db.wallets
total_balance-release_bid b db =
    rw (wallets-release_bid b db)
      (total_balance-adjust_hold b.bidder_id (neg (pos b.amount)) db.wallets)

total_balance-hold_bid :
    (b : Bid) (db : Db) → total_balance (hold_bid b db).wallets ≡ total_balance db.wallets
total_balance-hold_bid b db =
    rw (wallets-hold_bid b db) (total_balance-adjust_hold b.bidder_id (pos b.amount) db.wallets)

settle_dutch-total :
    (a : Auction) (b : Bid) (w : World)
    → total_balance (settle_dutch a b w).1.db.wallets ≡ total_balance w.db.wallets
unfolding settle_dutch set_bid_status
settle_dutch-total a b w = grind (arith, settle-total_any)

release_previous-total :
    (a : Auction) (bidder_id : ℕ) (w : World)
    → total_balance (release_previous a bidder_id w).1.db.wallets ≡ total_balance w.db.wallets
unfolding release_previous wallet_or
release_previous-total a bidder_id w = grind (arith, total_balance-release_bid)

pub db-validate :
    (a : Auction) (bidder_id amount now : ℕ) (w : World)
    → (validate a bidder_id amount now w).1.db ≡ w.db
unfolding validate check_amount
db-validate a bidder_id amount now w = ground arith

pub db-lock_wallets :
    (a : Auction) (bidder_id : ℕ) (w : World) → (lock_wallets a bidder_id w).1.db ≡ w.db
unfolding lock_wallets
db-lock_wallets a bidder_id w = ground arith

pub db-check_wallet :
    (bidder_id amount : ℕ) (w : World) → (check_wallet bidder_id amount w).1.db ≡ w.db
unfolding check_wallet wallet_or
db-check_wallet bidder_id amount w = ground arith

accept_bid-total :
    (a : Auction) (bidder_id amount now : ℕ) (auto : Bool) (w : World)
    → total_balance (accept_bid a bidder_id amount auto now w).1.db.wallets
      ≡ total_balance w.db.wallets
unfolding accept_bid update_auction wallet_or
accept_bid-total a bidder_id amount now auto w = grind (
  arith, db-validate, db-lock_wallets, db-check_wallet, release_previous-total,
  total_balance-hold_bid, settle_dutch-total,
)

-- A bid of any kind, placed or refused, leaves the sum of all balances as it was.
pub place_bid-total :
    (auction_id bidder_id amount now : ℕ) (auto : Bool) (w : World)
    → total_balance (place_bid auction_id bidder_id amount auto now w).1.db.wallets
      ≡ total_balance w.db.wallets
unfolding place_bid lock_auction
place_bid-total auction_id bidder_id amount now auto w = grind (arith, accept_bid-total)
