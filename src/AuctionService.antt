-- ===== src/AuctionService.antt =====
-- `createAuction`, `cancelAuction` and `buyNow` of back/src/modules/auctions/auction.service.ts.
pub mod Sales
pub mod Cancel
pub mod Refunds
pub mod Requests
mod Tests
use auctionhaus.Prelude.{
  ℕ, ◌+◌, ◌-◌, ◌*◌, Bool, true, false, not, ◌&&◌, ◌||◌, Option, none, some, List, [], ◌∷◌, ℤ, pos,
  neg, ◌+ℤ◌, ltb, leb, ◌==◌, if◌then◌else◌, keep, map, update_many,
}
use auctionhaus.Schema.{
  Auction, AuctionType, AuctionStatus, Bid, BidStatus, SettlementKind, TransactionType, is_active,
  is_ended, is_cancelled, is_dutch,
}
use auctionhaus.Store.{Db, find_wallet, wins, adjust_wallet, log_transaction, update_auction}
use auctionhaus.Escrow.{Params, settle_within_tx}
use auctionhaus.Tx.{
  Tx, Event, pure, gets, raise, guard, or_raise, modify, emit, when, lock_auction, lock_all,
  sort_ids, transaction, ◌>>=◌, ◌>>◌, start_job, end_job, drop_price_job, end_not_after_start,
  dutch_needs_step, not_authorized, already_ended, already_cancelled, auction_not_active,
  no_buy_now_price, own_auction,
}

-- What a seller gives.
pub record NewAuction : Type 0 where
  pub kind : AuctionType
  pub starting_price : ℕ
  pub reserve_price : Option ℕ
  pub buy_now_price : Option ℕ
  pub dutch_price_step : Option ℕ
  pub dutch_interval : Option ℕ
  pub min_increment : ℕ
  pub anti_sniping_mins : ℕ
  pub start_time : ℕ
  pub end_time : ℕ

-- `!data.dutchPriceStep`: neither missing nor zero.
abbrev pub is_set : Option ℕ → Bool
is_set none = false
is_set (some n) = ltb 0 n

abbrev pub value : Option ℕ → ℕ
value none = 0
value (some n) = n

abbrev pub auction_row : ℕ → NewAuction → ℕ → ℕ → Auction
auction_row seller_id d id now = record {
  id = id;
  seller_id = seller_id;
  kind = d.kind;
  status = if leb d.start_time now then AuctionStatus.active else AuctionStatus.pending;
  starting_price = d.starting_price;
  reserve_price = d.reserve_price;
  current_price = d.starting_price;
  buy_now_price = d.buy_now_price;
  dutch_price_step = d.dutch_price_step;
  dutch_interval = d.dutch_interval;
  min_increment = d.min_increment;
  anti_sniping_mins = d.anti_sniping_mins;
  start_time = d.start_time;
  end_time = d.end_time;
  actual_end_time = none;
  winner_id = none;
  winner_bid_id = none;
}

-- `auction.dutchPriceStep` of a row is an object when it is set, also for zero.
abbrev pub is_present : Option ℕ → Bool
is_present none = false
is_present (some _) = true

-- The job that starts the auction; a Dutch one that starts at once gets its price drops instead.
unfoldable pub schedule_start : Auction → ℕ → Tx (Unit {0})
schedule_start a now w =
    if ltb now a.start_time
    then emit (start_job a.id (a.start_time - now)) w
    else when (is_dutch a.kind && is_set a.dutch_interval && is_present a.dutch_price_step)
        (emit (drop_price_job a.id (value a.dutch_price_step) (value a.dutch_interval * 1000))) w

-- `createAuction`. A job that is late by then has no delay and is not queued.
unfoldable pub create_auction : ℕ → NewAuction → ℕ → Tx Auction
create_auction seller_id d now = do
  guard (ltb d.start_time d.end_time) end_not_after_start
  guard (not (is_dutch d.kind && not (is_set d.dutch_price_step && is_set d.dutch_interval)))
      dutch_needs_step
  a ← gets (λ db. auction_row seller_id d db.next_id now)
  modify (λ db. record db { auctions = a ∷ db.auctions; next_id = db.next_id + 1 })
  schedule_start a now
  when (ltb now d.end_time) (emit (end_job a.id (d.end_time - now)))
  pure a

-- The refund of one user: the sum of the winning bids.
unfoldable pub refund_of : ℕ → List Bid → ℕ
refund_of uid [] = 0
refund_of uid (b ∷ bs) = (if b.bidder_id == uid then b.amount else 0) + refund_of uid bs

-- One user's refund, as it is written: to the balance, and off the hold.
unfoldable pub refund_user : ℕ → List Bid → ℕ → Db → Db
refund_user auction_id tops uid db =
    let amount = pos (refund_of uid tops) in
    log_transaction uid TransactionType.bid_release amount (some auction_id)
      (adjust_wallet uid amount (neg amount) db)

unfoldable pub refund_all : ℕ → List Bid → List ℕ → Db → Db
refund_all auction_id tops [] db = db
refund_all auction_id tops (uid ∷ uids) db =
    refund_all auction_id tops uids (refund_user auction_id tops uid db)

-- Those of the bidders that have a wallet, each once, in ascending order.
abbrev pub refunded_users : List Bid → Db → List ℕ
refunded_users tops db = sort_ids (
    map (λ b. b.bidder_id)
      (keep (λ b. elim (find_wallet b.bidder_id db.wallets) [ none ↦ false | some _ ↦ true ]) tops))

unfoldable pub cancel_body : Auction → ℕ → Bool → Tx Auction
cancel_body a user_id is_admin = do
  guard (is_admin || a.seller_id == user_id) not_authorized
  guard (not (is_ended a.status)) already_ended
  guard (not (is_cancelled a.status)) already_cancelled
  tops ← gets (λ db. keep (wins a.id) db.bids)
  uids ← gets (refunded_users tops)
  lock_all uids
  modify (refund_all a.id tops uids)
  modify (λ db. record db {
    bids = update_many (wins a.id) (λ b. record b { status = BidStatus.outbid }) db.bids;
  })
  modify (update_auction a.id (λ x. record x { status = AuctionStatus.cancelled }))
  pure (record a { status = AuctionStatus.cancelled })

-- `cancelAuction`
unfoldable pub cancel_auction : ℕ → ℕ → Bool → Tx Auction
cancel_auction auction_id user_id is_admin =
    transaction (lock_auction auction_id >>= λ a. cancel_body a user_id is_admin)

abbrev pub bought : ℕ → ℕ → ℕ → Auction → Auction
bought buyer_id price now a = record a {
  status = AuctionStatus.ended;
  winner_id = some buyer_id;
  current_price = price;
  actual_end_time = some now;
}

abbrev pub sale_of : Auction → ℕ → ℕ → Params
sale_of a buyer_id price = record {
  auction_id = a.id;
  payer_id = buyer_id;
  seller_id = a.seller_id;
  amount = price;
  kind = SettlementKind.direct_sale;
}

unfoldable pub buy_body : Auction → ℕ → ℕ → Tx Auction
buy_body a buyer_id now = do
  guard (is_active a.status) auction_not_active
  price ← or_raise a.buy_now_price no_buy_now_price
  guard (not (a.seller_id == buyer_id)) own_auction
  done ← settle_within_tx (sale_of a buyer_id price)
  if done.already_settled
      then pure a
      else (modify (update_auction a.id (bought buyer_id price now))
          >> pure (bought buyer_id price now a))

-- `buyNow`
unfoldable pub buy_now : ℕ → ℕ → ℕ → Tx Auction
buy_now auction_id buyer_id now =
    transaction (lock_auction auction_id >>= λ a. buy_body a buyer_id now)
