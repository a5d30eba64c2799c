-- ===== src/Closing.antt =====
-- `endAuction` of back/src/workers/index.ts: the winner is determined and the auction ENDED in one
-- transaction, the losing sealed bids are given back in a second, and the winner's bid is settled in
-- a third. Rows of equal amount, which the database may order either way, come newest first.
pub mod Winner
pub mod Once
pub mod Money
mod Tests
use auctionhaus.Prelude.{
  ℕ, Bool, true, false, not, ◌&&◌, Option, none, some, List, [], ◌∷◌, pos, neg, leb, ◌==◌,
  if◌then◌else◌, keep, map, update_first,
}
use auctionhaus.Schema.{
  Auction, AuctionStatus, Bid, BidStatus, NotificationType, SettlementKind, TransactionType,
  is_ended, is_dutch, is_sealed,
}
use auctionhaus.Store.{
  Db, find_wallet, find_auction, wins, adjust_wallet, log_transaction, set_bid_status,
  update_auction,
}
use auctionhaus.Escrow.{Params, settle_within_tx}
use auctionhaus.Tx.{
  Tx, ok, err, pure, gets, modify, emit, when, lock, lock_all, sort_ids, auction_row, transaction,
  ◌>>=◌, ◌>>◌, notify, auction_closed,
}

unfoldable pub insert_by_amount : Bid → List Bid → List Bid
insert_by_amount x [] = x ∷ []
insert_by_amount x (y ∷ ys) =
    let rest = insert_by_amount x ys in if leb y.amount x.amount then x ∷ y ∷ ys else y ∷ rest

-- `orderBy: { amount: 'desc' }`
unfoldable pub by_amount : List Bid → List Bid
unfolding insert_by_amount
by_amount [] = []
by_amount (x ∷ xs) = insert_by_amount x (by_amount xs)

-- `take: 1`
unfoldable pub first_bid : List Bid → Option Bid
first_bid [] = none
first_bid (b ∷ _) = some b

-- What the first transaction returns: `auctionSnap`, `winningBid`, `winner` and `metReserve`.
pub record Ending : Type 0 where
  pub auction : Auction
  pub winning_bid : Option Bid
  pub winner : Option ℕ
  pub met_reserve : Bool

abbrev pub reserve_met : Option ℕ → Option Bid → Bool
reserve_met none bid = true
reserve_met (some reserve) none = false
reserve_met (some reserve) (some b) = leb reserve b.amount

abbrev pub ending_of : Auction → Option Bid → Ending
ending_of a bid = record {
  auction = a;
  winning_bid = bid;
  winner =
      if reserve_met a.reserve_price bid
      then elim bid [ none ↦ none | some b ↦ some b.bidder_id ]
      else none;
  met_reserve = reserve_met a.reserve_price bid;
}

abbrev pub closed_row : Ending → ℕ → Auction → Auction
closed_row e now a = elim e.winner [
  | none ↦ record a {
    status = AuctionStatus.ended;
    winner_id = none;
    winner_bid_id = none;
    actual_end_time = some now;
  }
  | some uid ↦ record a {
    status = AuctionStatus.ended;
    winner_id = some uid;
    winner_bid_id = elim e.winning_bid [ none ↦ none | some b ↦ some b.id ];
    actual_end_time = some now;
    current_price = elim e.winning_bid [ none ↦ a.current_price | some b ↦ b.amount ];
  }
]

-- The first transaction. It gives up on a missing auction and on one that is ENDED.
unfoldable pub determine : ℕ → ℕ → Tx (Option Ending)
unfolding first_bid
determine auction_id now = do
  lock (auction_row auction_id)
  row ← gets (λ db. find_auction auction_id db.auctions)
  elim row [
    | none ↦ pure none
    | some a ↦ λ w.
        (let e = ending_of a (first_bid (by_amount (keep (wins auction_id) w.db.bids))) in
          if is_ended a.status
          then pure none w
          else (modify (update_auction auction_id (closed_row e now)) >> pure (some e)) w)
  ]

-- A bid's status with its `refundedAt`.
unfoldable pub mark_bid : ℕ → BidStatus → ℕ → Db → Db
unfolding update_first
mark_bid id status now db = record db {
  bids =
      update_first (λ b. b.id == id) (λ b. record b { status = status; refunded_at = some now })
        db.bids;
}

-- One losing bid. A bidder with no wallet is passed over.
unfoldable pub refund_loser : ℕ → ℕ → Bid → Db → Db
refund_loser auction_id now b db = elim (find_wallet b.bidder_id db.wallets) [
  | none ↦ db
  | some _ ↦ mark_bid b.id BidStatus.lost now (
      log_transaction b.bidder_id TransactionType.bid_release (pos b.amount) (some auction_id)
        (adjust_wallet b.bidder_id (pos 0) (neg (pos b.amount)) db))
]

unfoldable pub refund_losers : ℕ → ℕ → List Bid → Db → Db
refund_losers auction_id now [] db = db
refund_losers auction_id now (b ∷ bs) db =
    refund_losers auction_id now bs (refund_loser auction_id now b db)

abbrev pub unrefunded : ℕ → Bid → Bool
unrefunded auction_id b =
    b.auction_id == auction_id && elim b.refunded_at [ none ↦ true | some _ ↦ false ]

-- The second transaction, on a sealed auction: the highest unprocessed bid is WON, the others LOST.
unfoldable pub refund_sealed : ℕ → ℕ → Tx (Unit {0})
refund_sealed auction_id now = do
  pending ← gets (λ db. by_amount (keep (unrefunded auction_id) db.bids))
  lock_all (sort_ids (map (λ b. b.bidder_id) pending))
  elim pending [
    | [] ↦ pure tt
    | top ∷ losers ↦
        (modify (mark_bid top.id BidStatus.won now) >> modify (refund_losers auction_id now losers))
  ]

abbrev pub won_by : Auction → Bid → Params
won_by a b = record {
  auction_id = a.id;
  payer_id = b.bidder_id;
  seller_id = a.seller_id;
  amount = b.amount;
  kind = SettlementKind.won_auction;
}

-- The third transaction. Its error is logged and otherwise passed over.
unfoldable pub settle_winner : Auction → Bid → Tx (Unit {0})
settle_winner a b w =
    let (r, w') =
      transaction
        (lock (auction_row a.id)
          >> settle_within_tx (won_by a b)
          >> modify (set_bid_status b.id BidStatus.won))
        w in
    elim r [
      | ok _ ↦ emit (notify a.seller_id NotificationType.payment_received) w'
      | err _ ↦ (ok tt, w')
    ]

unfoldable pub notify_all : NotificationType → List ℕ → Tx (Unit {0})
notify_all kind [] w = (ok tt, w)
notify_all kind (uid ∷ uids) w =
    notify_all kind uids (record w { outbox = notify uid kind ∷ w.outbox })

-- The watchers but for the winner.
abbrev pub others : Option ℕ → List ℕ → List ℕ
others none uids = uids
others (some winner) uids = keep (λ uid. not (uid == winner)) uids

-- After the commit of the first transaction.
unfoldable pub finish : Ending → List ℕ → ℕ → Tx (Unit {0})
finish e watchers now = do
  when (is_sealed e.auction.kind) (transaction (refund_sealed e.auction.id now))
  elim e.winning_bid [
    | none ↦ pure tt
    | some b ↦ when (e.met_reserve && not (is_dutch e.auction.kind)) (settle_winner e.auction b)
  ]
  emit (
      auction_closed e.auction.id e.winner
        (elim e.winning_bid [ none ↦ none | some b ↦ some b.amount ]) e.met_reserve)
  elim e.winner [ none ↦ pure tt | some uid ↦ emit (notify uid NotificationType.auction_won) ]
  notify_all NotificationType.auction_ended (others e.winner watchers)

-- `endAuction`. `watchers` are the users with the auction on their watchlist.
unfoldable pub end_auction : ℕ → List ℕ → ℕ → Tx (Unit {0})
end_auction auction_id watchers now = do
  ending ← transaction (determine auction_id now)
  elim ending [ none ↦ pure tt | some e ↦ finish e watchers now ]
