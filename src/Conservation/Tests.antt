-- ===== src/Conservation/Tests.antt =====
-- Courses of events on the concrete tables.
use auctionhaus.Prelude.{◌≡◌, refl, pos, false, List, [], ◌∷◌}
use auctionhaus.Store.Wallets.{total_balance}
use auctionhaus.Scenario.{seller, alice, bob, opened}
use auctionhaus.Conservation.{
  Operation, bid, drop, ending, confirmation, purchase, perform_all, perform_all-total,
}
use auctionhaus.Accounts.{Site}
use auctionhaus.Accounts.Dashboard.{get_dashboard_stats}
use auctionhaus.Conservation.Revenue.{
  Movement, trade, payin, payout, cancellation, move_all, get_dashboard_stats-revenue,
}

-- Bob outbids Alice and bids sealed, the Dutch price falls, Alice buys, and the auctions end.
abbrev day : List Operation
day =
    bid 10 bob 1100 10 false
    ∷ bid 12 bob 1500 20 false
    ∷ drop 11 50 30 []
    ∷ purchase 10 alice 40
    ∷ ending 12 2000000 (alice ∷ [])
    ∷ confirmation 12 bob
    ∷ []

perform_all-total_example :
    total_balance (perform_all day opened).db.wallets ≡ total_balance opened.db.wallets
perform_all-total_example = perform_all-total day opened

abbrev site : Site
site = record {
  world = opened;
  people = record { users = []; ratings = []; watchlist = []; notifications = []; next_id = 50 };
  cache = [];
}

-- Alice pays in and buys, and the seller takes the money out.
abbrev sales : List Movement
sales =
    payin alice (pos 5000)
    ∷ trade (purchase 10 alice 40)
    ∷ payout seller (pos 9000)
    ∷ cancellation 12 seller false
    ∷ []

get_dashboard_stats-revenue_example :
    (get_dashboard_stats (record site { world = move_all sales opened })).revenue ≡ pos 0
get_dashboard_stats-revenue_example = get_dashboard_stats-revenue sales site refl
