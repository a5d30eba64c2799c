-- ===== src/Bidding/Locks.antt =====
-- The order in which a bid locks its rows.
use auctionhaus.Prelude.{ℕ, ◌≡◌, Bool, true, false, some, [], ◌∷◌, arith, Option-cases, inl, inr}
use auctionhaus.Schema.{Auction, is_dutch}
use auctionhaus.Store.{find_auction}
use auctionhaus.Tx.{World, auction_row, lock_auction, wallet_or}
use auctionhaus.LockOrder.{is_after, in_order, lock_rank}
use auctionhaus.Bidding.{
  check_amount, validate, lock_wallets, check_wallet, release_previous, accept_bid, place_bid,
}

validate-locks :
    (a : Auction) (bidder_id amount now : ℕ) (w : World)
    → (validate a bidder_id amount now w).1.locks ≡ w.locks
unfolding validate check_amount
validate-locks a bidder_id amount now w = ground arith

check_wallet-locks :
    (bidder_id amount : ℕ) (w : World) → (check_wallet bidder_id amount w).1.locks ≡ w.locks
unfolding check_wallet wallet_or
check_wallet-locks bidder_id amount w = ground arith

release_previous-locks :
    (a : Auction) (bidder_id : ℕ) (w : World) → (release_previous a bidder_id w).1.locks ≡ w.locks
unfolding release_previous wallet_or
release_previous-locks a bidder_id w = ground arith

lock_wallets-in_order :
    (a : Auction) (bidder_id id : ℕ) (w : World)
    → w.locks ≡ auction_row id ∷ []
    → in_order (lock_wallets a bidder_id w).1.locks ≡ true
unfolding lock_wallets in_order is_after lock_rank
lock_wallets-in_order a bidder_id id w start = grind arith

accept_bid-in_order :
    (a : Auction) (bidder_id amount now id : ℕ) (auto : Bool) (w : World)
    → is_dutch a.kind ≡ false
    → w.locks ≡ auction_row id ∷ []
    → in_order (accept_bid a bidder_id amount auto now w).1.locks ≡ true
unfolding accept_bid wallet_or in_order is_after
accept_bid-in_order a bidder_id amount now id auto w kind start = grind (
  arith,
  validate-locks,
  check_wallet-locks,
  release_previous-locks,
  lock_wallets-in_order a bidder_id id,
)

-- A bid on an auction that is not a Dutch one, placed or refused, locks the auction's row first and
-- then the wallets in ascending order of their users, none of them twice.
pub place_bid-in_order :
    (auction_id bidder_id amount now : ℕ) (auto : Bool) (w : World)
    → ((a : Auction) → find_auction auction_id w.db.auctions ≡ some a → is_dutch a.kind ≡ false)
    → in_order (place_bid auction_id bidder_id amount auto now w).1.locks ≡ true
unfolding place_bid lock_auction in_order is_after
place_bid-in_order auction_id bidder_id amount now auto w kind =
    elim (Option-cases (find_auction auction_id w.db.auctions)) [
      | inl missing ↦ ground arith
      | inr (a, found) ↦ grind (
        arith,
        kind a found,
        accept_bid-in_order a bidder_id amount now auction_id auto
            (record w { locks = auction_row auction_id ∷ [] }),
      )
    ]
