-- ===== src/Payment/Tests.antt =====
-- A confirmation, and the theorem at it.
use auctionhaus.Prelude.{
  ℕ, ◌≡◌, refl, some, [], ◌∷◌, pos, ◌+ℤ◌, ◌-ℤ◌, neg, keep, find_first, update_first, update_many,
}
use auctionhaus.Schema.{Auction, AuctionStatus}
use auctionhaus.Store.{
  find_wallet, find_auction, find_winning, find_settlement, adjust, set_status, adjust_wallet,
  set_bid_status, log_transaction, create_bid, create_settlement, update_auction,
}
use auctionhaus.Store.Wallets.{held_of}
use auctionhaus.Escrow.{Outcome, settle_within_tx, settle_fresh, is_settled, move_money}
use auctionhaus.Tx.{World, Result, lock_auction, wallet_or, sort_ids, insert_id, wallet_locks}
use auctionhaus.Scenario.{alice, english_auction, market, opened}
use auctionhaus.Closing.{insert_by_amount, by_amount, first_bid}
use auctionhaus.Payment.{pay, confirm_body, confirm_winner_payment}

-- The English auction has ended with Alice as its winner, and is not settled.
abbrev won : Auction
won = record english_auction {
  status = AuctionStatus.ended;
  winner_id = some alice;
  winner_bid_id = some 20;
}

abbrev unpaid : World
unpaid = record opened { db = record market { auctions = won ∷ [] } }

run_confirm : ℕ → World → Result Outcome × World
unfolding find_wallet find_auction find_winning find_settlement adjust set_status adjust_wallet
    set_bid_status log_transaction create_bid create_settlement update_auction lock_auction
    wallet_or settle_within_tx settle_fresh is_settled move_money sort_ids insert_id wallet_locks
    keep find_first update_first update_many ◌+ℤ◌ ◌-ℤ◌ neg insert_by_amount by_amount first_bid pay
    confirm_body confirm_winner_payment
run_confirm uid w = confirm_winner_payment 10 uid w

paid_hold : held_of alice (run_confirm alice unpaid).1.db.wallets ≡ pos 0
unfolding run_confirm held_of
paid_hold = refl
