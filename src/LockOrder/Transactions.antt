-- ===== src/LockOrder/Transactions.antt =====
-- The transactions that lock an auction and wallets, each against the global order.
use auctionhaus.Prelude.{
  ℕ, ◌≡◌, Bool, true, false, Option-cases, Bool-cases, inl, inr, some, List, [], ◌∷◌, arith, ◌==◌,
}
use auctionhaus.Schema.{Auction, AutoBid, is_dutch}
use auctionhaus.Store.{find_auction}
use auctionhaus.Tx.{World, auction_row, lock_auction, wallet_or}
use auctionhaus.Escrow.{Params, settle_within_tx, settle_fresh}
use auctionhaus.Bidding.{place_bid}
use auctionhaus.Bidding.Locks.{place_bid-in_order}
use auctionhaus.AuctionService.{sale_of, buy_body, buy_now, cancel_body, cancel_auction}
use auctionhaus.Ladder.{ladder_body, process_ladder}
use auctionhaus.LockOrder.{lock_rank, is_after, in_order, in_order-sort_ids}

-- A settlement between two users locks their wallets in order.
settle-in_order :
    (p : Params) (id : ℕ) (w : World)
    → (p.payer_id == p.seller_id) ≡ false
    → w.locks ≡ auction_row id ∷ []
    → in_order (settle_within_tx p w).1.locks ≡ true
unfolding settle_within_tx settle_fresh wallet_or in_order is_after lock_rank
settle-in_order p id w two start = grind arith

buy_body-in_order :
    (a : Auction) (buyer_id now id : ℕ) (w : World)
    → w.locks ≡ auction_row id ∷ []
    → in_order (buy_body a buyer_id now w).1.locks ≡ true
unfolding buy_body in_order is_after
buy_body-in_order a buyer_id now id w start = elim (Option-cases a.buy_now_price) [
  | inl no_price ↦ grind arith
  | inr (price, asked) ↦ elim (Bool-cases (a.seller_id == buyer_id)) [
    | inl own ↦ grind arith
    | inr other ↦
        let settled = settle-in_order (sale_of a buyer_id price) id w (ground arith) start in
        grind (arith, settled)
  ]
]

cancel_body-in_order :
    (a : Auction) (user_id id : ℕ) (admin : Bool) (w : World)
    → w.locks ≡ auction_row id ∷ []
    → in_order (cancel_body a user_id admin w).1.locks ≡ true
unfolding cancel_body in_order is_after
cancel_body-in_order a user_id id admin w start = grind (arith, in_order-sort_ids id)

ladder_body-in_order :
    (a : Auction) (pool : List AutoBid) (trigger_id now id : ℕ) (w : World)
    → w.locks ≡ auction_row id ∷ []
    → in_order (ladder_body a pool trigger_id now w).1.locks ≡ true
unfolding ladder_body
ladder_body-in_order a pool trigger_id now id w start = grind (arith, in_order-sort_ids id)

buy_now-in_order :
    (auction_id buyer_id now : ℕ) (w : World)
    → in_order (buy_now auction_id buyer_id now w).1.locks ≡ true
unfolding buy_now lock_auction in_order is_after
buy_now-in_order auction_id buyer_id now w = grind (arith, buy_body-in_order)

cancel_auction-in_order :
    (auction_id user_id : ℕ) (admin : Bool) (w : World)
    → in_order (cancel_auction auction_id user_id admin w).1.locks ≡ true
unfolding cancel_auction lock_auction in_order is_after
cancel_auction-in_order auction_id user_id admin w = grind (arith, cancel_body-in_order)

process_ladder-in_order :
    (auction_id trigger_id now : ℕ) (w : World)
    → in_order (process_ladder auction_id trigger_id now w).1.locks ≡ true
unfolding process_ladder in_order is_after
process_ladder-in_order auction_id trigger_id now w = grind (arith, ladder_body-in_order)

-- A bid on an auction that is not a Dutch one, and a purchase, a cancellation and a run of the ladder
-- on any auction, all lock their rows in one global order, whatever they come to: the auction's row first and then
-- the wallets in ascending order of their users, none of them twice.
pub transactions-in_order :
    (bid_on auction_id user_id amount now : ℕ) (flag : Bool) (w : World)
    → ((a : Auction) → find_auction bid_on w.db.auctions ≡ some a → is_dutch a.kind ≡ false)
    → (in_order (place_bid bid_on user_id amount flag now w).1.locks ≡ true)
      × (in_order (buy_now auction_id user_id now w).1.locks ≡ true)
      × (in_order (cancel_auction auction_id user_id flag w).1.locks ≡ true)
      × (in_order (process_ladder auction_id user_id now w).1.locks ≡ true)
transactions-in_order bid_on auction_id user_id amount now flag w kind = (
  place_bid-in_order bid_on user_id amount now flag w kind,
  buy_now-in_order auction_id user_id now w,
  cancel_auction-in_order auction_id user_id flag w,
  process_ladder-in_order auction_id user_id now w,
)
