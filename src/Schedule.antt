-- ===== src/Schedule.antt =====
-- The job that starts an auction, the job that drops a Dutch price, and the check at startup that
-- each running Dutch auction has its job: back/src/workers/index.ts.
pub mod Money
pub mod Ends
mod Tests
use auctionhaus.Prelude.{
  ℕ, ◌-◌, ◌*◌, Bool, true, false, not, ◌&&◌, ◌||◌, none, some, List, [], ◌∷◌, leb, ◌==◌,
  if◌then◌else◌, keep,
}
use auctionhaus.Schema.{
  Auction, AuctionStatus, AutoBid, NotificationType, is_pending, is_active, is_dutch,
}
use auctionhaus.Store.{Db, find_auction, update_auction}
use auctionhaus.Ladder.{rank, update_auto_bid}
use auctionhaus.AuctionService.{is_set, is_present, value}
use auctionhaus.AutoBids.{below_reserve}
use auctionhaus.Bidding.{place_bid}
use auctionhaus.Closing.{notify_all, end_auction}
use auctionhaus.Tx.{
  Tx, Event, ok, err, pure, gets, modify, emit, when, ◌>>=◌, ◌>>◌, auction_started, price_drop,
  drop_price_job,
}

-- The repeated job of a Dutch auction; the step may be any, the interval not zero.
abbrev pub drops : Auction → Bool
drops a = is_dutch a.kind && is_set a.dutch_interval && is_present a.dutch_price_step

abbrev pub drop_job : Auction → Event
drop_job a = drop_price_job a.id (value a.dutch_price_step) (value a.dutch_interval * 1000)

-- `start-auction`
unfoldable pub start_auction : ℕ → List ℕ → Tx (Unit {0})
start_auction auction_id watchers = do
  row ← gets (λ db. find_auction auction_id db.auctions)
  elim row [
    | none ↦ pure tt
    | some a ↦ when (is_pending a.status) (
        modify (update_auction auction_id (λ x. record x { status = AuctionStatus.active }))
        >> emit (auction_started auction_id)
        >> when (drops a) (emit (drop_job a))
        >> notify_all NotificationType.auction_started watchers)
  ]

-- `D(currentPrice).sub(step)`, not below zero.
abbrev pub dropped : Auction → ℕ → ℕ
dropped a step = a.current_price - step

-- The automatic bids that take the price, in turn until one is placed; one that fails is switched
-- off. The answer is `accepted`.
unfoldable pub try_accept : ℕ → ℕ → ℕ → List AutoBid → Tx Bool
try_accept auction_id price now [] w = (ok false, w)
try_accept auction_id price now (ab ∷ abs) w =
    let (r, w') = place_bid auction_id ab.bidder_id price true now w in
    let rest =
      try_accept auction_id price now abs
        (record w' { db = update_auto_bid ab.id (λ x. record x { is_active = false }) w'.db }) in
    elim r [ ok _ ↦ (ok true, w') | err _ ↦ rest ]

unfoldable pub offer : ℕ → ℕ → ℕ → Tx (Unit {0})
offer auction_id price now = do
  modify (update_auction auction_id (λ x. record x { current_price = price }))
  ready ← gets (λ db. rank (
      keep (λ ab. ab.auction_id == auction_id && ab.is_active && leb price ab.max_amount)
        db.auto_bids))
  accepted ← try_accept auction_id price now ready
  when (not accepted) (emit (price_drop auction_id price))

-- `drop-price`
unfoldable pub drop_price : ℕ → ℕ → List ℕ → ℕ → Tx (Unit {0})
drop_price auction_id step watchers now = do
  row ← gets (λ db. find_auction auction_id db.auctions)
  elim row [
    | none ↦ pure tt
    | some a ↦ when (is_active a.status) (
        if dropped a step == 0 || below_reserve (dropped a step) a.reserve_price
        then end_auction auction_id watchers now
        else offer auction_id (dropped a step) now)
  ]

unfoldable pub is_queued : ℕ → List ℕ → Bool
is_queued id [] = false
is_queued id (j ∷ js) = if j == id then true else is_queued id js

unfoldable pub reschedule : List ℕ → List Auction → List Event
reschedule jobs [] = []
reschedule jobs (a ∷ rows) =
    let rest = reschedule jobs rows in
    if drops a && not (is_queued a.id jobs) then drop_job a ∷ rest else rest

-- `reconcileDutchAuctions`: the jobs that it queues, given the ids of those that are queued.
unfoldable pub reconcile : List ℕ → Db → List Event
reconcile jobs db = reschedule jobs (keep (λ a. is_dutch a.kind && is_active a.status) db.auctions)
