-- ===== src/Bidding.antt =====
-- `placeBid` of back/src/modules/bidding/bid.service.ts. The feed of the fraud detector after the
-- commit, which the result does not depend on, is left out.
pub mod Effect
pub mod Holds
pub mod Dutch
pub mod Wallets
pub mod Placed
pub mod Money
pub mod Locks
mod Tests
use auctionhaus.Prelude.{
  ℕ, ◌+◌, ◌*◌, Bool, true, false, not, ◌&&◌, Option, none, some, ℤ, pos, ◌-ℤ◌, neg, ltb, leb, ltb_ℤ,
  ◌==◌, if◌then◌else◌,
}
use auctionhaus.Schema.{
  Auction, AuctionType, AuctionStatus, Bid, BidStatus, TransactionType, NotificationType,
  SettlementKind, is_active, is_english, is_dutch, is_sealed,
}
use auctionhaus.Store.{
  Db, find_winning, adjust_wallet, set_bid_status, log_transaction, create_bid, update_auction,
}
use auctionhaus.Escrow.{settle_within_tx}
use auctionhaus.Tx.{
  Tx, pure, gets, guard, modify, emit, when, lock, lock_pair, lock_auction, wallet_or, transaction,
  ◌>>=◌, ◌>>◌, wallet_row, notify, auction_extended, ladder_job, auction_not_active, own_auction,
  auction_ended, below_minimum, not_exact_price, not_above_starting, insufficient_available,
  null_reference, record_not_found,
}

-- The amount that each kind of auction takes.
unfoldable pub check_amount : Auction → ℕ → Tx (Unit {0})
check_amount a amount = elim a.kind [
  | AuctionType.english ↦ guard (leb (a.current_price + a.min_increment) amount) below_minimum
  | AuctionType.dutch ↦ guard (amount == a.current_price) not_exact_price
  | AuctionType.sealed_bid ↦ guard (ltb a.starting_price amount) not_above_starting
]

unfoldable pub validate : Auction → ℕ → ℕ → ℕ → Tx (Unit {0})
unfolding check_amount
validate a bidder_id amount now = do
  guard (is_active a.status) auction_not_active
  guard (not (a.seller_id == bidder_id)) own_auction
  guard (leb now a.end_time) auction_ended
  check_amount a amount

-- The bidder's wallet, with that of the bidder whose hold will be released.
unfoldable pub lock_wallets : Auction → ℕ → Tx (Unit {0})
lock_wallets a bidder_id = do
  prev ← gets (λ db. if is_english a.kind then find_winning a.id db.bids else none)
  elim prev [
    | none ↦ lock (wallet_row bidder_id)
    | some b ↦ λ w.
        (if b.bidder_id == bidder_id
          then lock (wallet_row bidder_id) w
          else lock_pair bidder_id b.bidder_id w)
  ]

unfoldable pub check_wallet : ℕ → ℕ → Tx (Unit {0})
unfolding wallet_or
check_wallet bidder_id amount = do
  wallet ← wallet_or insufficient_available bidder_id
  guard (not (ltb_ℤ (wallet.balance -ℤ wallet.held_amount) (pos amount))) insufficient_available

-- OUTBID, the hold given back, and the BID_RELEASE row.
unfoldable pub release_bid : Bid → Db → Db
release_bid b db =
    log_transaction b.bidder_id TransactionType.bid_release (pos b.amount) (some b.auction_id) (
      adjust_wallet b.bidder_id (pos 0) (neg (pos b.amount))
        (set_bid_status b.id BidStatus.outbid db))

-- The winning bid of an English auction is released, also when it is the bidder's own.
unfoldable pub release_previous : Auction → ℕ → Tx (Unit {0})
unfolding wallet_or
release_previous a bidder_id = do
  prev ← gets (λ db. if is_english a.kind then find_winning a.id db.bids else none)
  elim prev [
    | none ↦ pure tt
    | some b ↦ (do
      wallet_or null_reference b.bidder_id
      modify (release_bid b)
      when (not (b.bidder_id == bidder_id)) (emit (notify b.bidder_id NotificationType.outbid)))
  ]

-- The new hold, the BID_HOLD row and the bid.
unfoldable pub hold_bid : Bid → Db → Db
hold_bid b db = create_bid b (
    log_transaction b.bidder_id TransactionType.bid_hold (neg (pos b.amount)) (some b.auction_id)
      (adjust_wallet b.bidder_id (pos 0) (pos b.amount) db))

abbrev pub minutes : ℕ → ℕ
minutes n = n * 60 * 1000

-- A bid of an English auction comes in the last minutes: `now >= endTime - antiSnipingMins`.
unfoldable pub is_sniping : Auction → ℕ → Bool
is_sniping a now =
    is_english a.kind
    && ltb 0 a.anti_sniping_mins
    && leb a.end_time (now + minutes a.anti_sniping_mins)

-- `auctionUpdateData`, applied.
unfoldable pub after_bid : Bid → ℕ → Auction → Auction
unfolding is_sniping
after_bid b now a = closed
  where
    priced : Auction
    priced = if is_sealed a.kind then a else record a { current_price = b.amount }

    new_end : ℕ
    new_end = now + minutes a.anti_sniping_mins

    extended : Auction
    extended =
        if is_sniping a now
        then record priced { end_time = new_end; actual_end_time = some new_end }
        else priced

    closed : Auction
    closed =
        if is_dutch a.kind
        then record extended {
          status = AuctionStatus.ended;
          winner_id = some b.bidder_id;
          winner_bid_id = some b.id;
          actual_end_time = some now;
        }
        else extended

-- A Dutch bid settles at once.
unfoldable pub settle_dutch : Auction → Bid → Tx (Unit {0})
settle_dutch a b = do
  settle_within_tx (record {
    auction_id = a.id;
    payer_id = b.bidder_id;
    seller_id = a.seller_id;
    amount = b.amount;
    kind = SettlementKind.won_auction;
  })
  modify (set_bid_status b.id BidStatus.won)

abbrev pub new_bid : ℕ → ℕ → ℕ → Bool → ℕ → Db → Bid
new_bid auction_id bidder_id amount is_auto now db = record {
  id = db.next_id;
  auction_id = auction_id;
  bidder_id = bidder_id;
  amount = amount;
  status = BidStatus.winning;
  is_auto_bid = is_auto;
  created_at = now;
  refunded_at = none;
}

-- The body of the transaction, once the auction's row is locked and read.
unfoldable pub accept_bid : Auction → ℕ → ℕ → Bool → ℕ → Tx Bid
accept_bid a bidder_id amount is_auto now = do
  validate a bidder_id amount now
  lock_wallets a bidder_id
  check_wallet bidder_id amount
  release_previous a bidder_id
  wallet_or record_not_found bidder_id
  bid ← gets (new_bid a.id bidder_id amount is_auto now)
  modify (hold_bid bid)
  when (is_sniping a now) (emit (auction_extended a.id (now + minutes a.anti_sniping_mins)))
  modify (update_auction a.id (after_bid bid now))
  when (is_dutch a.kind) (settle_dutch a bid)
  pure bid

-- `placeBid`. The ladder is queued after the commit.
unfoldable pub place_bid : ℕ → ℕ → ℕ → Bool → ℕ → Tx Bid
place_bid auction_id bidder_id amount is_auto now = do
  bid ← transaction (lock_auction auction_id >>= λ a. accept_bid a bidder_id amount is_auto now)
  emit (ladder_job auction_id bidder_id)
  pure bid
