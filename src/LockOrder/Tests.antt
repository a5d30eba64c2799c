-- ===== src/LockOrder/Tests.antt =====
-- The transactions on the concrete tables.
use auctionhaus.Prelude.{◌≡◌, true, false, find_first, arith}
use auctionhaus.Store.{find_auction}
use auctionhaus.Scenario.{bob, opened}
use auctionhaus.Bidding.{place_bid}
use auctionhaus.AuctionService.{buy_now, cancel_auction}
use auctionhaus.Ladder.{process_ladder}
use auctionhaus.LockOrder.{in_order}
use auctionhaus.LockOrder.Transactions.{transactions-in_order}

-- Bob outbids Alice in the English auction; on the Dutch one he fails to buy, to cancel and to set off
-- a ladder.
transactions-in_order_example :
    (in_order (place_bid 10 bob 1100 false 10 opened).1.locks ≡ true)
    × (in_order (buy_now 11 bob 10 opened).1.locks ≡ true)
    × (in_order (cancel_auction 11 bob false opened).1.locks ≡ true)
    × (in_order (process_ladder 11 bob 10 opened).1.locks ≡ true)
unfolding find_auction find_first
transactions-in_order_example =
    transactions-in_order 10 11 bob 1100 10 false opened (λ a found. grind arith)
