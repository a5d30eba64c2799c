-- ===== src/Simulator/Run/Tests.antt =====
-- A round of a shill and of a truthful bidder on the English auction.
use auctionhaus.Prelude.{◌+◌, ◌≡◌, refl, true, false, List, [], ◌∷◌, ◌++◌, length}
use auctionhaus.Scenario.{seller, alice, bob, opened}
use auctionhaus.Accounts.{Site}
use auctionhaus.Simulator.Agents.{Draws, Agent, truthful, shill}
use auctionhaus.Simulator.Run.{SimAuction, Simulation, run_rounds, total_bids_of}
use auctionhaus.Simulator.Run.Logged.{offers, logged, run_rounds-offers}

abbrev site : Site
site = record {
  world = opened;
  people = record { users = []; ratings = []; watchlist = []; notifications = []; next_id = 50 };
  cache = [];
}

abbrev draws : Draws
draws = record { delay = 300; steps = 1; next_interval = 4000 }

abbrev bob_agent : Agent
bob_agent = shill (record { ceiling = 2950; last_bid_ts = 0 })

abbrev auctions : List SimAuction
auctions =
    record {
      id = 10;
      seller_id = seller;
      participants =
          record { user_id = bob; is_shill = true; agent = bob_agent }
          ∷ record {
            user_id = alice;
            is_shill = false;
            agent = truthful (record { valuation = 3000; last_bid_ts = 0; interval_ms = 2000 });
          }
          ∷ [];
    }
    ∷ []

start : Simulation
start = record { site = site; log = [] }

after : Simulation
unfolding start
after = (run_rounds seller (λ n i j. record { now = 5000; draws = draws }) 2 auctions start).1

run_rounds-offers_example :
    (offers after.site.world.db ≡ logged after.log ++ offers start.site.world.db)
    × (length after.site.world.db.bids ≡ total_bids_of after + length start.site.world.db.bids)
unfolding after start
run_rounds-offers_example =
    run_rounds-offers seller (λ n i j. record { now = 5000; draws = draws }) 2 auctions start refl
