-- ===== src/BidList/Tests.antt =====
-- A list of bids in a live sealed auction.
use auctionhaus.Prelude.{ℕ, ◌≡◌, refl, [], ◌∷◌, arith, find_first}
use auctionhaus.Schema.{Bid}
use auctionhaus.Store.{find_auction}
use auctionhaus.Scenario.{alice, bob, sealed_auction, alice_bid, market}
use auctionhaus.BidList.{get_auction_bids}
use auctionhaus.BidList.Privacy.{get_auction_bids-private}

abbrev secret : ℕ → ℕ → ℕ → Bid
secret id bidder_id amount = record alice_bid {
  id = id;
  auction_id = 12;
  bidder_id = bidder_id;
  amount = amount;
}

-- Alice sees the same whether Bob bid 2000 or a fourth user 9000.
get_auction_bids-private_example :
    get_auction_bids 12 alice
      (record market { bids = secret 22 bob 2000 ∷ secret 21 alice 1500 ∷ [] })
    ≡ get_auction_bids 12 alice
        (record market { bids = secret 22 4 9000 ∷ secret 21 alice 1500 ∷ [] })
unfolding find_auction find_first
get_auction_bids-private_example =
    get_auction_bids-private 12 alice
      (record market { bids = secret 22 bob 2000 ∷ secret 21 alice 1500 ∷ [] })
      (secret 22 4 9000 ∷ secret 21 alice 1500 ∷ []) sealed_auction refl refl (ground arith)
