-- ===== src/BidList.antt =====
-- `getAuctionBids` of back/src/modules/bidding/bid.service.ts: the list of an auction's bids, masked
-- while a sealed auction is live. Names and avatars of the bidders are left out.
pub mod Privacy
mod Tests
use auctionhaus.Prelude.{
  ℕ, Bool, ◌&&◌, Option, none, some, List, [], ◌∷◌, leb, ◌==◌, if◌then◌else◌, keep, map,
}
use auctionhaus.Schema.{Auction, Bid, BidStatus, is_active, is_sealed}
use auctionhaus.Store.{Db, find_auction}
use auctionhaus.Closing.{by_amount}
use auctionhaus.Tx.{Result, ok, err, auction_not_found}

-- A row of the answer. `bidder_id` stands also for the `bidder` object.
pub record BidView : Type 0 where
  pub id : ℕ
  pub auction_id : ℕ
  pub status : BidStatus
  pub is_auto_bid : Bool
  pub created_at : ℕ
  pub amount : Option ℕ
  pub bidder_id : Option ℕ

abbrev pub masked : ℕ → Bid → BidView
masked viewer_id b = record {
  id = b.id;
  auction_id = b.auction_id;
  status = b.status;
  is_auto_bid = b.is_auto_bid;
  created_at = b.created_at;
  amount = if b.bidder_id == viewer_id then some b.amount else none;
  bidder_id = if b.bidder_id == viewer_id then some b.bidder_id else none;
}

abbrev pub full : Bid → BidView
full b = record {
  id = b.id;
  auction_id = b.auction_id;
  status = b.status;
  is_auto_bid = b.is_auto_bid;
  created_at = b.created_at;
  amount = some b.amount;
  bidder_id = some b.bidder_id;
}

unfoldable pub insert_by_time : Bid → List Bid → List Bid
insert_by_time x [] = x ∷ []
insert_by_time x (y ∷ ys) =
    let rest = insert_by_time x ys in if leb x.created_at y.created_at then x ∷ y ∷ ys else y ∷ rest

-- `orderBy: { createdAt: 'asc' }`
unfoldable pub by_time : List Bid → List Bid
unfolding insert_by_time
by_time [] = []
by_time (x ∷ xs) = insert_by_time x (by_time xs)

abbrev pub is_sealed_live : Auction → Bool
is_sealed_live a = is_sealed a.kind && is_active a.status

abbrev pub is_on : ℕ → Bid → Bool
is_on auction_id b = b.auction_id == auction_id

-- `getAuctionBids`
unfoldable pub get_auction_bids : ℕ → ℕ → Db → Result (List BidView)
get_auction_bids auction_id viewer_id db = elim (find_auction auction_id db.auctions) [
  | none ↦ err auction_not_found
  | some a ↦ ok (
      if is_sealed_live a
      then map (masked viewer_id) (by_time (keep (is_on auction_id) db.bids))
      else map full (by_amount (keep (is_on auction_id) db.bids)))
]
