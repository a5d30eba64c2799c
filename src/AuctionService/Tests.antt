-- ===== src/AuctionService/Tests.antt =====
-- Cancellations and purchases, and the theorems at them.
use auctionhaus.Prelude.{
  ℕ, ◌≡◌, ◌⊎◌, refl, true, false, pos, ◌+ℤ◌, ◌-ℤ◌, neg, keep, find_first, update_first, update_many,
}
use auctionhaus.Schema.{Auction, is_ended, is_cancelled}
use auctionhaus.Store.{
  find_wallet, find_auction, find_winning, find_settlement, adjust, set_status, adjust_wallet,
  set_bid_status, log_transaction, create_bid, create_settlement, update_auction,
}
use auctionhaus.Store.Wallets.{balance_of, held_of, total_balance}
use auctionhaus.Escrow.{settle_within_tx, settle_fresh, is_settled, move_money}
use auctionhaus.Tx.{
  World, Error, Result, ok, err, lock_auction, wallet_or, sort_ids, insert_id, wallet_locks,
}
use auctionhaus.Scenario.{seller, alice, bob, english_auction, market, opened}
use auctionhaus.AuctionService.{
  refund_of, refund_user, refund_all, cancel_body, cancel_auction, buy_body, buy_now,
}
use auctionhaus.AuctionService.Refunds.{backed}
use auctionhaus.AuctionService.Cancel.{winning_bids, cancel_auction-total, cancel_auction_lem}

run_cancel : ℕ → World → Result Auction × World
unfolding find_wallet find_auction find_winning find_settlement adjust set_status adjust_wallet
    set_bid_status log_transaction create_bid create_settlement update_auction lock_auction
    wallet_or settle_within_tx settle_fresh is_settled move_money sort_ids insert_id wallet_locks
    keep find_first update_first update_many ◌+ℤ◌ ◌-ℤ◌ neg refund_of refund_user refund_all
    cancel_body cancel_auction
run_cancel user_id w = cancel_auction 10 user_id false w

run_buy : ℕ → World → Result Auction × World
unfolding find_wallet find_auction find_winning find_settlement adjust set_status adjust_wallet
    set_bid_status log_transaction create_bid create_settlement update_auction lock_auction
    wallet_or settle_within_tx settle_fresh is_settled move_money sort_ids insert_id wallet_locks
    keep find_first update_first update_many ◌+ℤ◌ ◌-ℤ◌ neg buy_body buy_now
run_buy buyer_id w = buy_now 10 buyer_id 10 w

-- Alice bid 1000 of her 50000, and has 51000 after the cancellation.
cancel_makes_money : balance_of alice (run_cancel seller opened).1.db.wallets ≡ pos 51000
unfolding run_cancel balance_of
cancel_makes_money = refl

-- After the purchase Alice's hold is still there, though nobody can win with her bid.
buy_keeps_hold : held_of alice (run_buy bob opened).1.db.wallets ≡ pos 1000
unfolding run_buy held_of
buy_keeps_hold = refl

cancel_auction-total_example :
    total_balance (run_cancel seller opened).1.db.wallets
    ≡ total_balance market.wallets +ℤ pos (backed (winning_bids 10 market) market)
unfolding run_cancel
cancel_auction-total_example =
    cancel_auction-total 10 seller false opened (run_cancel seller opened).1 english_auction refl
      refl

cancel_auction_lem_example :
    ((b : Auction)
      → (run_cancel bob opened).0 ≡ ok b
      → ((false ≡ true) ⊎ (seller ≡ bob))
        × (is_ended english_auction.status ≡ false)
        × (is_cancelled english_auction.status ≡ false))
    × ((x : Error) → (run_cancel bob opened).0 ≡ err x → (run_cancel bob opened).1.db ≡ market)
unfolding run_cancel
cancel_auction_lem_example = cancel_auction_lem 10 bob false opened english_auction refl
