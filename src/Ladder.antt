-- ===== src/Ladder.antt =====
-- `processAutoBidLadder` of back/src/workers/index.ts: after a manual bid the automatic bids of an
-- English auction outbid one another, one increment at a time, in one transaction.
pub mod Turns
pub mod Prices
pub mod Holds
pub mod Worker
mod Tests
use auctionhaus.Prelude.{
  ℕ, zero, suc, ◌+◌, ◌-◌, ◌*◌, ◌/◌, ◌<◌, ◌≤◌, Bool, true, false, not, ◌&&◌, ◌||◌, Option, none,
  some, List, [], ◌∷◌, ℤ, pos, ◌-ℤ◌, neg, ltb, leb, ltb_ℤ, ◌==◌, if◌then◌else◌, find_first,
  update_first, keep, map, min, reverse,
}
use auctionhaus.Schema.{
  Auction, AuctionStatus, AutoBid, Bid, BidStatus, TransactionType, Wallet, is_active, is_english,
  is_winning,
}
use auctionhaus.Store.{
  Db, find_wallet, find_auction, adjust_wallet, set_bid_status, log_transaction, create_bid,
  update_auction,
}
use auctionhaus.Tx.{
  Tx, World, Result, ok, err, pure, gets, modify, transaction, lock, Lock, auction_row, wallet_row,
  ◌>>=◌, ◌>>◌, lock_all, sort_ids,
}

-- One rung, as it is sent to the room.
pub record LadderStep : Type 0 where
  pub bid_id : ℕ
  pub bidder_id : ℕ
  pub amount : ℕ
  pub created_at : ℕ

-- The variables of the loop: `pool`, `cur`, `curWinnerBidId`, `curWinnerUserId`,
-- `curWinningAmount` and `steps` (the last one first).
pub record Rung : Type 0 where
  pub pool : List AutoBid
  pub cur : ℕ
  pub winner_bid_id : ℕ
  pub winner_user_id : ℕ
  pub winning_amount : ℕ
  pub steps : List LadderStep

-- `maxAmount` falls, and of equal ones the earlier comes first.
abbrev pub ranks_before : AutoBid → AutoBid → Bool
ranks_before x y =
    ltb y.max_amount x.max_amount || (x.max_amount == y.max_amount && leb x.created_at y.created_at)

unfoldable pub insert_ranked : AutoBid → List AutoBid → List AutoBid
insert_ranked x [] = x ∷ []
insert_ranked x (y ∷ ys) = if ranks_before x y then x ∷ y ∷ ys else y ∷ insert_ranked x ys

-- `orderBy: [{ maxAmount: 'desc' }, { createdAt: 'asc' }]`
unfoldable pub rank : List AutoBid → List AutoBid
unfolding insert_ranked
rank [] = []
rank (x ∷ xs) = insert_ranked x (rank xs)

-- The active automatic bids of everybody but the one whose bid set the ladder off.
unfoldable pub competing : ℕ → ℕ → Db → List AutoBid
unfolding rank keep
competing auction_id trigger_id db = rank (
    keep (λ ab. ab.auction_id == auction_id && ab.is_active && not (ab.bidder_id == trigger_id))
      db.auto_bids)

-- The smallest multiple of the increment above the runner-up's maximum, but not above the highest.
-- (An increment of zero makes the quotient infinite and the product no number, and the highest
-- maximum is taken.)
unfoldable pub tight_ceiling : (increment runner_up highest : ℕ) → ℕ
tight_ceiling increment runner_up highest =
    if increment == 0
    then highest
    else (let grid = runner_up / increment * increment + increment in
        if ltb grid highest then grid else highest)

-- `Math.max(0, Math.min(100000, (tightCeiling - cur) / inc, rounded up))`
unfoldable pub max_steps : (increment cur ceiling : ℕ) → ℕ
max_steps increment cur ceiling =
    if increment == 0
    then (if ltb cur ceiling then 100000 else 0)
    else min 100000 ((ceiling - cur + increment - 1) / increment)

abbrev pub affords : ℕ → AutoBid → Bool
affords next ab = leb next ab.max_amount

-- The challenger: the first of the pool that is not the winner; else the winner, for the last rung.
unfoldable pub pick : List AutoBid → ℕ → Option AutoBid
unfolding find_first
pick pool winner_id = elim (find_first (λ ab. not (ab.bidder_id == winner_id)) pool) [
  | some ab ↦ some ab
  | none ↦ elim pool [ [] ↦ none | ab ∷ _ ↦ (if ab.bidder_id == winner_id then some ab else none) ]
]

abbrev pub without : AutoBid → List AutoBid → List AutoBid
without c = keep (λ ab. not (ab.id == c.id))

abbrev pub update_auto_bid : ℕ → (AutoBid → AutoBid) → Db → Db
update_auto_bid id f db = record db { auto_bids = update_first (λ ab. ab.id == id) f db.auto_bids }

-- What the challenger must have free: all of the next bid, or the increment on an own one.
abbrev pub required : Rung → ℕ → AutoBid → ℤ
required r next c =
    if c.bidder_id == r.winner_user_id then pos next -ℤ pos r.winning_amount else pos next

-- The winner is outbid and the hold given back. (With no wallet there is nothing to give back.)
unfoldable pub unseat : (auction_id bid_id user_id amount : ℕ) → Db → Db
unseat auction_id bid_id user_id amount db =
    let marked = set_bid_status bid_id BidStatus.outbid db in
    elim (find_wallet user_id marked.wallets) [
      | none ↦ marked
      | some _ ↦
          log_transaction user_id TransactionType.bid_release (pos amount) (some auction_id)
            (adjust_wallet user_id (pos 0) (neg (pos amount)) marked)
    ]

abbrev pub rung_bid : ℕ → AutoBid → ℕ → ℕ → Db → Bid
rung_bid auction_id c next now db = record {
  id = db.next_id;
  auction_id = auction_id;
  bidder_id = c.bidder_id;
  amount = next;
  status = BidStatus.winning;
  is_auto_bid = true;
  created_at = now;
  refunded_at = none;
}

-- The challenger's bid, its hold and its BID_HOLD row.
unfoldable pub seat : Bid → Db → Db
seat b db =
    log_transaction b.bidder_id TransactionType.bid_hold (neg (pos b.amount)) (some b.auction_id)
      (adjust_wallet b.bidder_id (pos 0) (pos b.amount) (create_bid b db))

-- A rung that is played.
unfoldable pub play : ℕ → AutoBid → ℕ → ℕ → List AutoBid → Rung → Db → Rung × Db
play auction_id c next now pool r db =
    let vacated = unseat auction_id r.winner_bid_id r.winner_user_id r.winning_amount db in
    let bid = rung_bid auction_id c next now vacated in
    (
      record {
        pool = pool;
        cur = next;
        winner_bid_id = bid.id;
        winner_user_id = c.bidder_id;
        winning_amount = next;
        steps =
            record { bid_id = bid.id; bidder_id = c.bidder_id; amount = next; created_at = now }
            ∷ r.steps;
      },
      update_auto_bid c.id (λ ab. record ab { current_bid = next }) (seat bid vacated),
    )

-- One turn of the loop: the next state and tables, and whether the loop goes on.
unfoldable pub turn : ℕ → ℕ → ℕ → ℕ → Rung → Db → Bool × Rung × Db
turn auction_id increment ceiling now r db =
    let next = r.cur + increment in
    let pool = keep (affords next) r.pool in
    if ltb ceiling next then (false, r, db) else elim (pick pool r.winner_user_id) [
      | none ↦ (false, r, db)
      | some c ↦ elim (find_wallet c.bidder_id db.wallets) [
        | none ↦ (true, record r { pool = without c pool }, db)
        | some wallet ↦
            (if ltb_ℤ (wallet.balance -ℤ wallet.held_amount) (required r next c)
              then (
                true,
                record r { pool = without c pool },
                update_auto_bid c.id (λ ab. record ab { is_active = false }) db,
              )
              else (let (r', db') = play auction_id c next now pool r db in (true, r', db')))
      ]
    ]

-- The loop, over the steps that are left.
unfoldable pub climb : ℕ → ℕ → ℕ → ℕ → ℕ → Rung → Db → Rung × Db
climb zero auction_id increment ceiling now r db = (r, db)
climb (suc left) auction_id increment ceiling now r db =
    let (go_on, r', db') = turn auction_id increment ceiling now r db in
    elim go_on [ true ↦ climb left auction_id increment ceiling now r' db' | false ↦ (r', db') ]

-- The trigger's own winning bid, the newest one if there were several.
unfoldable pub find_trigger : ℕ → ℕ → Db → Option Bid
unfolding find_first
find_trigger auction_id trigger_id db =
    find_first (λ b. b.auction_id == auction_id && b.bidder_id == trigger_id && is_winning b.status)
      db.bids

abbrev pub start_rung : Auction → Bid → List AutoBid → Rung
start_rung a trigger pool = record {
  pool = pool;
  cur = a.current_price;
  winner_bid_id = trigger.id;
  winner_user_id = trigger.bidder_id;
  winning_amount = trigger.amount;
  steps = [];
}

-- `highestMax` and `runnerUpMax`, and the bounds of the loop that they give.
abbrev pub runner_up : ℕ → List AutoBid → ℕ
runner_up cur (_ ∷ second ∷ _) = second.max_amount
runner_up cur _ = cur

unfoldable pub ceiling_for : Auction → List AutoBid → ℕ
unfolding tight_ceiling
ceiling_for a [] = 0
ceiling_for a (top ∷ rest) =
    tight_ceiling a.min_increment (runner_up a.current_price (top ∷ rest)) top.max_amount

abbrev pub ladder_loop : Auction → List AutoBid → Bid → ℕ → Db → Rung × Db
ladder_loop a pool trigger now db =
    climb (max_steps a.min_increment a.current_price (ceiling_for a pool)) a.id a.min_increment
      (ceiling_for a pool) now (start_rung a trigger pool) db

-- The final price is written if there was a step.
abbrev pub write_price : ℕ → List LadderStep → ℕ → Db → Db
write_price id [] cur db = db
write_price id (_ ∷ _) cur db = update_auction id (λ x. record x { current_price = cur }) db

unfoldable pub run_ladder : Auction → List AutoBid → Bid → ℕ → Db → Rung × Db
run_ladder a pool trigger now db =
    let (r, db') = ladder_loop a pool trigger now db in (r, write_price a.id r.steps r.cur db')

-- The rest of the transaction, once the auction and the pool are known.
unfoldable pub ladder_body : Auction → List AutoBid → ℕ → ℕ → Tx (List LadderStep)
ladder_body a pool trigger_id now = do
  lock_all (sort_ids (trigger_id ∷ map (λ ab. ab.bidder_id) pool))
  found ← gets (find_trigger a.id trigger_id)
  elim found [
    | none ↦ pure []
    | some trigger ↦ λ w.
        (let (r, db') = run_ladder a pool trigger now w.db in
          (ok (reverse r.steps), record w { db = db' }))
  ]

-- What lets the ladder run on an auction: it is live, not over, and English.
abbrev pub climbs : Auction → ℕ → Bool
climbs a now = is_active a.status && leb now a.end_time && is_english a.kind

-- `processAutoBidLadder`. It returns no steps where it has nothing to do.
unfoldable pub process_ladder : ℕ → ℕ → ℕ → Tx (List LadderStep)
process_ladder auction_id trigger_id now = transaction (do
  row ← gets (λ db. find_auction auction_id db.auctions)
  elim row [
    | none ↦ pure []
    | some a ↦ (do
      lock (auction_row auction_id)
      pool ← gets (competing auction_id trigger_id)
      elim (climbs a now) [
        | false ↦ pure []
        | true ↦ elim pool [ [] ↦ pure [] | top ∷ rest ↦ ladder_body a (top ∷ rest) trigger_id now ]
      ])
  ])
