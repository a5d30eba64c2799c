-- ===== src/Sequencer.antt =====
-- back/src/modules/bidding/bid.sequencer.ts: bids are appended to a stream of Redis for each auction,
-- and one consumer places them in order. Redis is a parameter. Its connection does not fail here, so
-- the waits and retries of the consumer's loop are left out.
pub mod Streams
pub mod Order
pub mod Pressure
mod Tests
use auctionhaus.Prelude.{
  ℕ, zero, suc, Bool, true, false, Option, none, some, List, [], ◌∷◌, leb, if◌then◌else◌,
}
use auctionhaus.Schema.{Bid}
use auctionhaus.Store.{find_auction}
use auctionhaus.Tx.{World, Error, Event, Result, ok, err, bid_new, backpressure, stream_saturated}
use auctionhaus.Bidding.{place_bid}
use auctionhaus.Sequencer.Streams.{Redis, Fields, Entry, Delivery}

-- The bid of an entry is placed and sent to the room. An entry with no bidder or no number is passed
-- over, and so is a bid that fails.
unfoldable pub handle_entry : ℕ → ℕ → Fields → World → World
unfolding find_auction
handle_entry now auction_id f w = elim f.bidder_id [
  | none ↦ w
  | some bidder_id ↦ elim f.amount [
    | none ↦ w
    | some amount ↦
        (let (r, w') = place_bid auction_id bidder_id amount false now w in
          elim r [
            | err _ ↦ w'
            | ok b ↦ elim (find_auction auction_id w'.db.auctions) [
              | none ↦ w'
              | some _ ↦ record w' {
                outbox =
                    bid_new auction_id b.id (some b.amount) (some b.bidder_id) false ∷ w'.outbox;
              }
            ]
          ])
  ]
]

module _ (R : Redis) where
  pub record Server : Type 0 where
    pub world : World
    pub redis : R.Store

  -- `enqueue`, with the threshold.
  unfoldable pub enqueue : ℕ → ℕ → ℕ → ℕ → Server → Result ℕ × Server
  enqueue threshold auction_id bidder_id amount s =
      let len = R.xlen auction_id s.redis in
      let full = record s {
        world = record s.world { outbox = backpressure auction_id len ∷ s.world.outbox };
      } in
      let (id, added) =
        R.xadd auction_id (record { bidder_id = some bidder_id; amount = some amount }) s.redis in
      if leb threshold len
      then (err stream_saturated, full)
      else (ok id, record s { redis = R.create_group auction_id added })

  -- `processEntry`, which acknowledges the entry whatever comes of it.
  unfoldable pub process_entry : ℕ → ℕ → Entry → Server → Server
  process_entry now auction_id e s = record {
    world = handle_entry now auction_id e.fields s.world;
    redis = R.xack auction_id e.id s.redis;
  }

  unfoldable pub process_entries : ℕ → ℕ → List Entry → Server → Server
  process_entries now auction_id [] s = s
  process_entries now auction_id (e ∷ es) s =
      process_entries now auction_id es (process_entry now auction_id e s)

  unfoldable pub process_deliveries : ℕ → List Delivery → Server → Server
  process_deliveries now [] s = s
  process_deliveries now (d ∷ ds) s =
      process_deliveries now ds (process_entries now d.auction_id d.entries s)

  -- One pass of `consumeLoop`.
  unfoldable pub consume : ℕ → Server → Server
  consume now s =
      let (ds, read) = R.xreadgroup (R.scan s.redis) s.redis in
      process_deliveries now ds (record s { redis = read })

  -- That many passes.
  unfoldable pub consume_loop : ℕ → ℕ → Server → Server
  consume_loop zero now s = s
  consume_loop (suc n) now s = consume_loop n now (consume now s)
