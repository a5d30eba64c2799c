-- ===== src/BidController.antt =====
-- back/src/modules/bidding/bid.controller.ts: `placeBid` with what it sends to the auction's room, and
-- `placeBidStream` with the checks before a bid is queued.
pub mod Laws
mod Tests
use auctionhaus.Prelude.{
  ℕ, ◌+◌, ◌*◌, Bool, true, false, not, Option, none, some, List, [], ◌∷◌, ltb, leb, ◌==◌,
  if◌then◌else◌,
}
use auctionhaus.Schema.{Auction, AuctionType, Bid, is_active}
use auctionhaus.Store.{Db, find_auction}
use auctionhaus.Tx.{
  World, Tx, Error, Event, Result, ok, err, emit, pure, ◌>>=◌, ◌>>◌, bid_new, auction_not_found,
  auction_not_active, own_auction, auction_ended, below_minimum, not_exact_price,
  not_above_starting,
}
use auctionhaus.Bidding.{place_bid}
use auctionhaus.BidList.{is_sealed_live}
use auctionhaus.Sequencer.{Server, enqueue}
use auctionhaus.Sequencer.Streams.{Redis}

-- `isSealedLive`, of an auction that may be missing.
unfoldable pub hides : Option Auction → Bool
hides none = false
hides (some a) = is_sealed_live a

-- What the room is sent: a bid of a live sealed auction without its amount and bidder.
unfoldable pub announcement : ℕ → Option Auction → Bid → Event
unfolding hides
announcement auction_id meta b =
    if hides meta
    then bid_new auction_id b.id none none true
    else bid_new auction_id b.id (some b.amount) (some b.bidder_id) false

-- `placeBid` of the controller.
unfoldable pub place_bid_request : ℕ → ℕ → ℕ → ℕ → Tx Bid
unfolding announcement find_auction
place_bid_request auction_id bidder_id amount now = do
  bid ← place_bid auction_id bidder_id amount false now
  λ w. emit (announcement auction_id (find_auction auction_id w.db.auctions) bid) w
  pure bid

-- The amount check of `placeBidStream`.
unfoldable pub check_queued_amount : Auction → ℕ → Result (Unit {0})
check_queued_amount a amount = elim a.kind [
  | AuctionType.english ↦
      if ltb amount (a.current_price + a.min_increment) then err below_minimum else ok tt
  | AuctionType.dutch ↦ if not (amount == a.current_price) then err not_exact_price else ok tt
  | AuctionType.sealed_bid ↦ if leb amount a.starting_price then err not_above_starting else ok tt
]

-- The checks of `placeBidStream`, in their order.
unfoldable pub check_queued : ℕ → ℕ → ℕ → ℕ → Db → Result (Unit {0})
unfolding check_queued_amount find_auction
check_queued auction_id bidder_id amount now db = elim (find_auction auction_id db.auctions) [
  | none ↦ err auction_not_found
  | some a ↦
      if not (is_active a.status)
      then err auction_not_active
      else if a.seller_id == bidder_id
      then err own_auction
      else if ltb a.end_time now
      then err auction_ended
      else check_queued_amount a amount
]

-- `placeBidStream`
unfoldable pub place_bid_stream : (R : Redis) → ℕ → ℕ → ℕ → ℕ → ℕ → Server R → Result ℕ × Server R
unfolding check_queued enqueue
place_bid_stream R threshold auction_id bidder_id amount now s =
    elim (check_queued auction_id bidder_id amount now s.world.db) [
      | err e ↦ (err e, s)
      | ok _ ↦ enqueue R threshold auction_id bidder_id amount s
    ]
