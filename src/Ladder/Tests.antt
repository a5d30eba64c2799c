-- ===== src/Ladder/Tests.antt =====
-- Runs of the ladder, and the theorems at them.
use auctionhaus.Prelude.{
  ℕ, ◌≤◌, ◌≡◌, refl, true, List, [], ◌∷◌, arith, pos, ◌+ℤ◌, ◌-ℤ◌, neg, keep, find_first,
  update_first, update_many, All,
}
use auctionhaus.Schema.{AutoBid, NotificationType}
use auctionhaus.Store.{
  Db, find_wallet, find_auction, find_winning, find_settlement, adjust, set_status, adjust_wallet,
  set_bid_status, log_transaction, create_bid, create_settlement, update_auction,
}
use auctionhaus.Store.Wallets.{held_of}
use auctionhaus.Store.Holds.{excess}
use auctionhaus.Escrow.{settle_within_tx, settle_fresh, is_settled, move_money}
use auctionhaus.Tx.{
  World, Result, notify, bid_ladder, lock_auction, wallet_or, sort_ids, insert_id, wallet_locks,
}
use auctionhaus.Scenario.{alice, bob, english_auction, alice_bid, market, opened}
use auctionhaus.Ladder.{
  LadderStep, Rung, insert_ranked, rank, competing, tight_ceiling, max_steps, pick, unseat, seat,
  play, turn, climb, find_trigger, ceiling_for, run_ladder, ladder_body, process_ladder,
}
use auctionhaus.Ladder.Worker.{last_step, notify_steps, auto_bid_job}
use auctionhaus.Ladder.Prices.{IsLadder, run_ladder-prices}
use auctionhaus.Ladder.Holds.{process_ladder-excess}

abbrev auto_bid : ℕ → ℕ → ℕ → AutoBid
auto_bid id bidder_id max_amount = record {
  id = id;
  auction_id = 10;
  bidder_id = bidder_id;
  max_amount = max_amount;
  current_bid = 0;
  is_active = true;
  created_at = id;
}

-- Bob and a fourth user have automatic bids against Alice's winning bid.
abbrev rivals : World
rivals = record opened {
  db = record market {
    wallets = record { user_id = 4; balance = pos 40000; held_amount = pos 0 } ∷ market.wallets;
    auto_bids = auto_bid 30 bob 1500 ∷ auto_bid 31 4 1250 ∷ [];
    next_id = 32;
  };
}

abbrev rival_pool : List AutoBid
rival_pool = auto_bid 30 bob 1500 ∷ auto_bid 31 4 1250 ∷ []

run_process : World → Result (List LadderStep) × World
unfolding find_wallet find_auction find_winning find_settlement adjust set_status adjust_wallet
    set_bid_status log_transaction create_bid create_settlement update_auction lock_auction
    wallet_or settle_within_tx settle_fresh is_settled move_money sort_ids insert_id wallet_locks
    keep find_first update_first update_many ◌+ℤ◌ ◌-ℤ◌ neg insert_ranked rank competing
    tight_ceiling max_steps pick unseat seat play turn climb find_trigger ceiling_for run_ladder
    ladder_body process_ladder
run_process w = process_ladder 10 alice 10 w

run_loop : Db → Rung × Db
unfolding find_wallet find_auction find_winning find_settlement adjust set_status adjust_wallet
    set_bid_status log_transaction create_bid create_settlement update_auction lock_auction
    wallet_or settle_within_tx settle_fresh is_settled move_money sort_ids insert_id wallet_locks
    keep find_first update_first update_many ◌+ℤ◌ ◌-ℤ◌ neg insert_ranked rank tight_ceiling
    max_steps pick unseat seat play turn climb find_trigger ceiling_for run_ladder
run_loop db = run_ladder english_auction rival_pool alice_bid 10 db

-- Bob wins at the first price above the other maximum.
ladder_held : held_of bob (run_process rivals).1.db.wallets ≡ pos 1300
unfolding run_process held_of
ladder_held = refl

-- The trigger's hold is given back.
ladder_released : held_of alice (run_process rivals).1.db.wallets ≡ pos 0
unfolding run_process held_of
ladder_released = refl

run_job : World → World
unfolding run_process last_step notify_steps auto_bid_job
run_job w = (auto_bid_job 10 alice 10 w).1

-- One message with the three rungs, and a notification for each.
ladder_sent :
    (run_job rivals).outbox
    ≡ notify bob NotificationType.auto_bid_placed
      ∷ notify 4 NotificationType.auto_bid_placed
      ∷ notify bob NotificationType.auto_bid_placed
      ∷ bid_ladder 10 ((32, 1100, bob) ∷ (33, 1200, 4) ∷ (34, 1300, bob) ∷ []) 1300 34
      ∷ []
unfolding run_job
ladder_sent = refl

process_ladder-excess_example : excess bob (run_process rivals).1.db ≡ excess bob rivals.db
unfolding run_process
process_ladder-excess_example =
    process_ladder-excess bob 10 alice 10 rivals (omega arith) (ground arith)

run_ladder-prices_example :
    IsLadder 100 1000 (run_loop rivals.db).0.cur (run_loop rivals.db).0.steps
    × All (λ s. s.amount ≤ ceiling_for english_auction rival_pool) (run_loop rivals.db).0.steps
unfolding run_loop
run_ladder-prices_example = run_ladder-prices english_auction rival_pool alice_bid 10 rivals.db
