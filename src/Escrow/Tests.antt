-- ===== src/Escrow/Tests.antt =====
-- Runs of the settlement, and the theorems at them.
use auctionhaus.Prelude.{
  ◌≡◌, refl, true, pos, ◌+ℤ◌, ◌-ℤ◌, neg, keep, find_first, update_first, update_many,
}
use auctionhaus.Schema.{SettlementKind}
use auctionhaus.Store.{
  find_wallet, find_auction, find_winning, find_settlement, adjust, set_status, adjust_wallet,
  set_bid_status, log_transaction, create_bid, create_settlement, update_auction,
}
use auctionhaus.Store.Wallets.{balance_of, held_of}
use auctionhaus.Escrow.{Params, Outcome, settle_within_tx, settle_fresh, is_settled, move_money}
use auctionhaus.Tx.{World, Result, ok, lock_auction, wallet_or, sort_ids, insert_id, wallet_locks}
use auctionhaus.Scenario.{seller, alice, opened}
use auctionhaus.Escrow.Money.{settle_again}

-- Alice pays for her winning bid.
abbrev payment : Params
payment = record {
  auction_id = 10;
  payer_id = alice;
  seller_id = seller;
  amount = 1000;
  kind = SettlementKind.won_auction;
}

settle : Params → World → Result Outcome × World
unfolding find_wallet find_auction find_winning find_settlement adjust set_status adjust_wallet
    set_bid_status log_transaction create_bid create_settlement update_auction lock_auction
    wallet_or settle_within_tx settle_fresh is_settled move_money sort_ids insert_id wallet_locks
    keep find_first update_first update_many ◌+ℤ◌ ◌-ℤ◌ neg
settle p w = settle_within_tx p w

settled_hold : held_of alice (settle payment opened).1.db.wallets ≡ pos 0
unfolding settle held_of
settled_hold = refl

settled_balance : balance_of alice (settle payment opened).1.db.wallets ≡ pos 49000
unfolding settle balance_of
settled_balance = refl

settle_again_example :
    settle payment (settle payment opened).1
    ≡ (ok (record { already_settled = true; amount = 1000 }), (settle payment opened).1)
unfolding settle
settle_again_example = settle_again payment payment opened (settle payment opened).1 refl refl
