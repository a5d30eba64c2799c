-- ===== src/Detail/Tests.antt =====
-- The detail page of a live sealed auction, and what it leaves out.
use auctionhaus.Prelude.{ℕ, ◌≡◌, refl, some, List, [], ◌∷◌, arith, find_first, keep, first_n}
use auctionhaus.Schema.{Bid}
use auctionhaus.Store.{find_auction}
use auctionhaus.Scenario.{alice, bob, sealed_auction, alice_bid, market, opened}
use auctionhaus.Accounts.{Site}
use auctionhaus.Detail.{get_auction_by_id, shown_bids, latest_first, insert_latest}
use auctionhaus.Detail.Privacy.{get_auction_by_id-private}

abbrev secret : ℕ → ℕ → ℕ → Bid
secret id bidder_id amount = record alice_bid {
  id = id;
  auction_id = 12;
  bidder_id = bidder_id;
  amount = amount;
  created_at = id;
}

abbrev site_of : List Bid → Site
site_of bids = record {
  world = record opened { db = record market { bids = bids } };
  people = record { users = []; ratings = []; watchlist = []; notifications = []; next_id = 60 };
  cache = [];
}

-- Alice sees the same whether Bob bid 2000 or a fourth user 9000.
get_auction_by_id-private_example :
    get_auction_by_id 12 (some alice) (site_of (secret 22 bob 2000 ∷ secret 21 alice 1500 ∷ []))
    ≡ get_auction_by_id 12 (some alice) (site_of (secret 22 4 9000 ∷ secret 21 alice 1500 ∷ []))
unfolding find_auction find_first
get_auction_by_id-private_example =
    get_auction_by_id-private 12 alice sealed_auction
      (site_of (secret 22 bob 2000 ∷ secret 21 alice 1500 ∷ []))
      (secret 22 4 9000 ∷ secret 21 alice 1500 ∷ []) refl refl (ground arith)

abbrev twenty_by_bob : List Bid
twenty_by_bob =
    secret 41 bob 9
    ∷ secret 42 bob 9
    ∷ secret 43 bob 9
    ∷ secret 44 bob 9
    ∷ secret 45 bob 9
    ∷ secret 46 bob 9
    ∷ secret 47 bob 9
    ∷ secret 48 bob 9
    ∷ secret 49 bob 9
    ∷ secret 50 bob 9
    ∷ secret 51 bob 9
    ∷ secret 52 bob 9
    ∷ secret 53 bob 9
    ∷ secret 54 bob 9
    ∷ secret 55 bob 9
    ∷ secret 56 bob 9
    ∷ secret 57 bob 9
    ∷ secret 58 bob 9
    ∷ secret 59 bob 9
    ∷ secret 60 bob 9
    ∷ []

-- An own bid is not shown once twenty later bids of others have come.
own_is_dropped : shown_bids sealed_auction (some alice) (secret 21 alice 1500 ∷ twenty_by_bob) ≡ []
unfolding shown_bids latest_first insert_latest keep first_n
own_is_dropped = refl
