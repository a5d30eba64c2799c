-- ===== src/WalletService/Tests.antt =====
-- Deposits and withdrawals, and the theorems at them.
use auctionhaus.Prelude.{
  ℕ, refl, pos, ◌+ℤ◌, ◌-ℤ◌, ◌≤ℤ◌, neg, keep, find_first, update_first, update_many,
}
use auctionhaus.Schema.{Wallet}
use auctionhaus.Store.{
  find_wallet, find_auction, find_winning, find_settlement, adjust, set_status, adjust_wallet,
  set_bid_status, log_transaction, create_bid, create_settlement, update_auction,
}
use auctionhaus.Escrow.{settle_within_tx, settle_fresh, is_settled, move_money}
use auctionhaus.Tx.{World, Result, lock_auction, wallet_or, sort_ids, insert_id, wallet_locks}
use auctionhaus.Scenario.{alice, market, opened}
use auctionhaus.WalletService.{deposit, withdraw_body, withdraw}
use auctionhaus.WalletService.Laws.{Booked, withdraw-Booked}
use auctionhaus.Bidding.Wallets.{IsSolvent}

run_deposit : ℕ → World → Result Wallet × World
unfolding find_wallet find_auction find_winning find_settlement adjust set_status adjust_wallet
    set_bid_status log_transaction create_bid create_settlement update_auction lock_auction
    wallet_or settle_within_tx settle_fresh is_settled move_money sort_ids insert_id wallet_locks
    keep find_first update_first update_many ◌+ℤ◌ ◌-ℤ◌ neg deposit
run_deposit amount w = deposit alice (pos amount) w

run_withdraw : ℕ → World → Result Wallet × World
unfolding find_wallet find_auction find_winning find_settlement adjust set_status adjust_wallet
    set_bid_status log_transaction create_bid create_settlement update_auction lock_auction
    wallet_or settle_within_tx settle_fresh is_settled move_money sort_ids insert_id wallet_locks
    keep find_first update_first update_many ◌+ℤ◌ ◌-ℤ◌ neg withdraw_body withdraw
run_withdraw amount w = withdraw alice (pos amount) w

withdraw-Booked_example :
    Booked alice (neg (pos 49000)) market.wallets (run_withdraw 49000 opened).1.db.wallets
    × (pos 1 ≤ℤ pos 49000)
    × ((u : ℕ) → IsSolvent u market.wallets → IsSolvent u (run_withdraw 49000 opened).1.db.wallets)
unfolding run_withdraw
withdraw-Booked_example =
    withdraw-Booked alice (pos 49000) opened (run_withdraw 49000 opened).1 refl
