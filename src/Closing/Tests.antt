-- ===== src/Closing/Tests.antt =====
-- Runs of `endAuction`, and the theorems at them.
use auctionhaus.Prelude.{
  ℕ, ◌≡◌, refl, true, false, Option, some, [], ◌∷◌, pos, ◌+ℤ◌, ◌-ℤ◌, neg, keep, find_first,
  update_first, update_many,
}
use auctionhaus.Schema.{Bid, is_ended}
use auctionhaus.Store.{
  find_wallet, find_auction, find_winning, find_settlement, adjust, set_status, adjust_wallet,
  set_bid_status, log_transaction, create_bid, create_settlement, update_auction,
}
use auctionhaus.Store.Wallets.{balance_of, held_of}
use auctionhaus.Escrow.{settle_within_tx, settle_fresh, is_settled, move_money}
use auctionhaus.Tx.{World, Result, lock_auction, wallet_or, sort_ids, insert_id, wallet_locks}
use auctionhaus.Scenario.{seller, alice, bob, sealed_auction, alice_bid, market, opened}
use auctionhaus.Closing.{
  Ending, reserve_met, insert_by_amount, by_amount, first_bid, determine, mark_bid, refund_loser,
  refund_losers, refund_sealed, settle_winner, notify_all, finish, end_auction,
}
use auctionhaus.Closing.Winner.{Has, IsTop, winning_of, determine-winner}
use auctionhaus.Closing.Once.{end_auction_twice}

abbrev sealed_bid : ℕ → ℕ → ℕ → Bid
sealed_bid id bidder_id amount = record alice_bid {
  id = id;
  auction_id = 12;
  bidder_id = bidder_id;
  amount = amount;
}

-- Alice and Bob have bids in the sealed auction.
abbrev sealed : World
sealed = record opened {
  db = record market {
    wallets =
        record { user_id = seller; balance = pos 0; held_amount = pos 0 }
        ∷ record { user_id = alice; balance = pos 50000; held_amount = pos 2500 }
        ∷ record { user_id = bob; balance = pos 30000; held_amount = pos 2000 }
        ∷ [];
    bids = sealed_bid 22 bob 2000 ∷ sealed_bid 21 alice 1500 ∷ alice_bid ∷ [];
    next_id = 23;
  };
}

run_end : ℕ → World → World
unfolding find_wallet find_auction find_winning find_settlement adjust set_status adjust_wallet
    set_bid_status log_transaction create_bid create_settlement update_auction lock_auction
    wallet_or settle_within_tx settle_fresh is_settled move_money sort_ids insert_id wallet_locks
    keep find_first update_first update_many ◌+ℤ◌ ◌-ℤ◌ neg insert_by_amount by_amount first_bid
    determine mark_bid refund_loser refund_losers refund_sealed settle_winner notify_all finish
    end_auction
run_end id w = (end_auction id (alice ∷ []) 2000000 w).1

run_determine : ℕ → World → Result (Option Ending) × World
unfolding find_wallet find_auction find_winning find_settlement adjust set_status adjust_wallet
    set_bid_status log_transaction create_bid create_settlement update_auction lock_auction
    wallet_or settle_within_tx settle_fresh is_settled move_money sort_ids insert_id wallet_locks
    keep find_first update_first update_many ◌+ℤ◌ ◌-ℤ◌ neg insert_by_amount by_amount first_bid
    determine
run_determine id w = determine id 2000000 w

-- Bob pays, and Alice gets back what the sealed bid held.
sealed_paid : balance_of seller (run_end 12 sealed).db.wallets ≡ pos 2000
unfolding run_end balance_of
sealed_paid = refl

sealed_refunded : held_of alice (run_end 12 sealed).db.wallets ≡ pos 1000
unfolding run_end held_of
sealed_refunded = refl

-- With the reserve not met nobody wins the English auction; Alice's hold stays.
unmet_hold : held_of alice (run_end 10 opened).db.wallets ≡ pos 1000
unfolding run_end held_of
unmet_hold = refl

end_auction_twice_example :
    (((run_end 12 (run_end 12 sealed)).db) ≡ (run_end 12 sealed).db)
    × ((run_end 12 (run_end 12 sealed)).outbox ≡ (run_end 12 sealed).outbox)
unfolding run_end
end_auction_twice_example = end_auction_twice 12 2000000 2000000 (alice ∷ []) (alice ∷ []) sealed

determine-winner_example :
    (some sealed_auction ≡ some sealed_auction)
    × (is_ended sealed_auction.status ≡ false)
    × ((uid : ℕ)
        → some bob ≡ some uid
        → (b : Bid) × (some (sealed_bid 22 bob 2000) ≡ some b)
          × Has b (winning_of 12 sealed.db)
          × IsTop b (winning_of 12 sealed.db)
          × (b.bidder_id ≡ uid)
          × (reserve_met (some 1200) (some b) ≡ true))
unfolding run_determine
determine-winner_example = determine-winner 12 2000000 sealed (run_determine 12 sealed).1 refl
