-- ===== src/AutoBids/Tests.antt =====
-- An automatic bid that is set, and the theorem at it.
use auctionhaus.Prelude.{ℕ, ◌≡◌, refl, Option, ◌-ℤ◌, find_first, update_first}
use auctionhaus.Schema.{AutoBid}
use auctionhaus.Store.{find_wallet, find_auction}
use auctionhaus.Tx.{World, Result, err, wallet_or, max_not_above}
use auctionhaus.AutoBids.{check_max, upsert, set_auto_bid}
use auctionhaus.Scenario.{bob, opened}

run_set : ℕ → World → Result (Option AutoBid) × World
unfolding find_wallet find_auction find_first update_first wallet_or check_max upsert set_auto_bid
    ◌-ℤ◌
run_set max_amount w = set_auto_bid 10 bob max_amount 7 w

too_low : (run_set 1000 opened).0 ≡ err max_not_above
unfolding run_set
too_low = refl
