-- ===== src/Ladder/Holds.antt =====
-- The ladder keeps the hold on every wallet in step with its owner's bids, and no wallet is promised
-- more than it has.
use auctionhaus.Prelude.{
  ℕ, ◌+◌, ◌≡◌, ◌≢◌, ◌∙◌, refl, List, [], ◌∷◌, find_first, none, some, arith, int_laws, Bool, true,
  ◌&&◌, ℤ, pos, neg, ◌==◌, Option-cases, inl, inr, ==_refl,
}
use auctionhaus.Schema.{Auction, AutoBid, Bid, BidStatus, TransactionType, is_winning}
use auctionhaus.Store.{
  Db, find_wallet, find_auction, set_bid_status, adjust_wallet, log_transaction, create_bid,
  set_status, adjust,
}
use auctionhaus.Store.Wallets.{wallets-set_bid_status, find_wallet-adjust_some}
use auctionhaus.Store.Bids.{IdsBelow, IdsBelow-set_status, find_by_id, find_first-passes}
use auctionhaus.Store.Holds.{
  excess, excess-adjust_wallet, excess-set_bid_status, excess-create_bid, excess-log_transaction,
  excess-update_auction,
}
use auctionhaus.Tx.{World, auction_row}
use auctionhaus.Ladder.{
  Rung, play, LadderStep, start_rung, run_ladder, climb, ladder_loop, ceiling_for, max_steps,
  write_price, find_trigger, ladder_body, process_ladder, competing, unseat, seat, rung_bid,
  update_auto_bid,
}
use auctionhaus.Ladder.Turns.{MayPlay, Keeps, climb-keeps, rung_of}

-- The bid that the loop takes for the winning one is in the table, and its bidder has a wallet.
pub record Seated (r : Rung) (db : Db) : Type 0 where
  pub bid : Bid
  pub found : find_first (λ x. x.id == bid.id) db.bids ≡ some bid
  pub wins : is_winning bid.status ≡ true
  pub id : r.winner_bid_id ≡ bid.id
  pub owner : r.winner_user_id ≡ bid.bidder_id
  pub value : r.winning_amount ≡ bid.amount
  pub ids : IdsBelow db.next_id db.bids
  pub has_wallet : find_wallet bid.bidder_id db.wallets ≢ none

excess-unseat :
    (uid auction_id : ℕ) (b : Bid) (db : Db)
    → find_first (λ x. x.id == b.id) db.bids ≡ some b
    → is_winning b.status ≡ true
    → find_wallet b.bidder_id db.wallets ≢ none
    → excess uid (unseat auction_id b.id b.bidder_id b.amount db) ≡ excess uid db
unfolding unseat
excess-unseat uid auction_id b db found wins has_wallet =
    let marked : Db = set_bid_status b.id BidStatus.outbid db in
    let debit : ℤ = neg (pos b.amount) in
    grind (
      int_laws,
      excess-set_bid_status uid BidStatus.outbid db b found,
      wallets-set_bid_status b.id BidStatus.outbid db,
      excess-adjust_wallet uid b.bidder_id (pos 0) debit marked,
      excess-log_transaction uid b.bidder_id TransactionType.bid_release (pos b.amount)
          (some auction_id) (adjust_wallet b.bidder_id (pos 0) debit marked),
    )

-- The tables that a rung changes, apart from the wallets.
bids-unseat :
    (auction_id bid_id user_id amount : ℕ) (db : Db)
    → ((unseat auction_id bid_id user_id amount db).bids
        ≡ set_status bid_id BidStatus.outbid db.bids)
      × ((unseat auction_id bid_id user_id amount db).next_id ≡ db.next_id)
unfolding unseat set_bid_status adjust_wallet log_transaction
bids-unseat auction_id bid_id user_id amount db = ground arith

pub wallets-unseat :
    (auction_id bid_id user_id amount : ℕ) (db : Db)
    → find_wallet user_id db.wallets ≢ none
    → (unseat auction_id bid_id user_id amount db).wallets
      ≡ adjust user_id (pos 0) (neg (pos amount)) db.wallets
unfolding unseat set_bid_status adjust_wallet log_transaction
wallets-unseat auction_id bid_id user_id amount db present = ground arith

excess-seat :
    (uid : ℕ) (b : Bid) (db : Db)
    → is_winning b.status ≡ true
    → find_wallet b.bidder_id db.wallets ≢ none
    → excess uid (seat b db) ≡ excess uid db
unfolding seat create_bid
excess-seat uid b db wins present =
    let made : Db = create_bid b db in
    grind (
      int_laws,
      excess-create_bid uid db b,
      excess-adjust_wallet uid b.bidder_id (pos 0) (pos b.amount) made,
      excess-log_transaction uid b.bidder_id TransactionType.bid_hold (neg (pos b.amount))
          (some b.auction_id) (adjust_wallet b.bidder_id (pos 0) (pos b.amount) made),
    )

pub wallets-seat :
    (b : Bid) (db : Db) → (seat b db).wallets ≡ adjust b.bidder_id (pos 0) (pos b.amount) db.wallets
unfolding seat create_bid adjust_wallet log_transaction
wallets-seat b db = refl

bids-seat :
    (b : Bid) (db : Db) → ((seat b db).bids ≡ b ∷ db.bids) × ((seat b db).next_id ≡ db.next_id + 1)
unfolding seat create_bid adjust_wallet log_transaction
bids-seat b db = (refl, refl)

excess-update_auto_bid :
    (uid i : ℕ) (f : AutoBid → AutoBid) (db : Db)
    → excess uid (update_auto_bid i f db) ≡ excess uid db
unfolding excess
excess-update_auto_bid uid i f db = refl

module _ (auction_id increment ceiling now : ℕ) (r : Rung) (db : Db) (c : AutoBid) where
  -- The tables once the winner of a seated rung is gone.
  abbrev vacated : Db
  vacated = unseat auction_id r.winner_bid_id r.winner_user_id r.winning_amount db

  vacated-has_wallet :
      (uid : ℕ)
      → Seated r db
      → find_wallet uid db.wallets ≢ none
      → find_wallet uid vacated.wallets ≢ none
  vacated-has_wallet uid s present =
      rw
        (
          s.id,
          s.owner,
          s.value,
          wallets-unseat auction_id s.bid.id s.bid.bidder_id s.bid.amount db s.has_wallet,
        )
        (find_wallet-adjust_some s.bid.bidder_id uid _ _ db.wallets present)

  rung-Seated :
      Seated r db
      → MayPlay ceiling (r.cur + increment) r db c
      → Seated
          (rung_of auction_id increment ceiling now c r db).0
          (rung_of auction_id increment ceiling now c r db).1
  unfolding play find_first
  rung-Seated s may =
      let next = r.cur + increment in
      let b : Bid = rung_bid auction_id c next now vacated in
      let (rows, above) = bids-seat b vacated in
      let (old, same) =
        bids-unseat auction_id r.winner_bid_id r.winner_user_id r.winning_amount db in
      record {
        bid = b;
        found = rw (rows, ==_refl b.id);
        wins = refl;
        id = refl;
        owner = refl;
        value = refl;
        ids =
            rw (above, rows, old, same)
              (
                omega arith,
                IdsBelow-set_status db.next_id r.winner_bid_id BidStatus.outbid db.bids s.ids,
              );
        has_wallet = rw (wallets-seat b vacated) (
            find_wallet-adjust_some c.bidder_id c.bidder_id _ _ vacated.wallets
              (vacated-has_wallet c.bidder_id s may.has_wallet));
      }

  rung-excess :
      (uid : ℕ)
      → Seated r db
      → MayPlay ceiling (r.cur + increment) r db c
      → excess uid (rung_of auction_id increment ceiling now c r db).1 ≡ excess uid db
  unfolding play
  rung-excess uid s may =
      excess-update_auto_bid uid c.id _ _
      ∙ excess-seat uid (rung_bid auction_id c (r.cur + increment) now vacated) vacated refl
          (vacated-has_wallet c.bidder_id s may.has_wallet)
      ∙ rw (s.id, s.owner, s.value)
          (excess-unseat uid auction_id s.bid db s.found s.wins s.has_wallet)

pub Seated-any :
    (r : Rung) (db : Db) (pool : List AutoBid) (rows : List AutoBid)
    → Seated r db
    → Seated (record r { pool = pool }) (record db { auto_bids = rows })
Seated-any r db pool rows s = record {
  bid = s.bid;
  found = s.found;
  wins = s.wins;
  id = s.id;
  owner = s.owner;
  value = s.value;
  ids = s.ids;
  has_wallet = s.has_wallet;
}

-- A seated rung and the excess of one user, kept by the loop.
module _ (auction_id increment ceiling now uid : ℕ) (x : ℤ) where
  abbrev Kept : Rung → Db → Type 0
  Kept r db = Seated r db × (excess uid db ≡ x)

  Kept-Keeps : Keeps auction_id increment ceiling now Kept
  unfolding excess
  Kept-Keeps = record {
    drop = λ r db pool h. (Seated-any r db pool db.auto_bids h.0, h.1);
    switch = λ r db i h. (Seated-any r db r.pool _ h.0, h.1);
    rung = λ r db c may h. (
      rung-Seated auction_id increment ceiling now r db c h.0 may,
      rung-excess auction_id increment ceiling now r db c uid h.0 may ∙ h.1,
    );
  }

  climb-excess :
      (left : ℕ) (r : Rung) (db : Db)
      → Kept r db
      → excess uid (climb left auction_id increment ceiling now r db).1 ≡ x
  climb-excess left r db h =
      (climb-keeps auction_id increment ceiling now Kept left r db Kept-Keeps h).1

excess-write_price :
    (uid id cur : ℕ) (steps : List LadderStep) (db : Db)
    → excess uid (write_price id steps cur db) ≡ excess uid db
excess-write_price uid id cur [] db = refl
excess-write_price uid id cur (_ ∷ _) db = excess-update_auction uid id _ db

-- A whole ladder, set off by a winning bid whose bidder has a wallet.
pub start-Seated :
    (a : Auction) (pool : List AutoBid) (trigger_id : ℕ) (trigger : Bid) (db : Db)
    → find_trigger a.id trigger_id db ≡ some trigger
    → IdsBelow db.next_id db.bids
    → find_wallet trigger_id db.wallets ≢ none
    → Seated (start_rung a trigger pool) db
unfolding find_trigger
start-Seated a pool trigger_id trigger db e ids present =
    let p : Bid → Bool =
      λ b. b.auction_id == a.id && b.bidder_id == trigger_id && is_winning b.status in
    let passes = find_first-passes p db.bids e in
    record {
      bid = trigger;
      found = find_by_id db.next_id p db.bids ids e;
      wins = ground arith;
      id = refl;
      owner = refl;
      value = refl;
      ids = ids;
      has_wallet = ground arith;
    }

pub run_ladder-excess :
    (uid : ℕ) (a : Auction) (pool : List AutoBid) (trigger : Bid) (now : ℕ) (db : Db)
    → Seated (start_rung a trigger pool) db
    → excess uid (run_ladder a pool trigger now db).1 ≡ excess uid db
unfolding run_ladder
run_ladder-excess uid a pool trigger now db s =
    let (r, db') = ladder_loop a pool trigger now db in
    excess-write_price uid a.id r.cur r.steps db'
    ∙ climb-excess a.id a.min_increment (ceiling_for a pool) now uid (excess uid db)
        (max_steps a.min_increment a.current_price (ceiling_for a pool)) (start_rung a trigger pool)
        db (s, refl)

ladder_body-excess :
    (uid : ℕ) (a : Auction) (pool : List AutoBid) (trigger_id now : ℕ) (w : World)
    → IdsBelow w.db.next_id w.db.bids
    → find_wallet trigger_id w.db.wallets ≢ none
    → excess uid (ladder_body a pool trigger_id now w).1.db ≡ excess uid w.db
unfolding ladder_body
ladder_body-excess uid a pool trigger_id now w ids present =
    elim (Option-cases (find_trigger a.id trigger_id w.db)) [
      | inl nobody ↦ ground arith
      | inr (trigger, e) ↦ ground (
        arith,
        run_ladder-excess uid a pool trigger now w.db
            (start-Seated a pool trigger_id trigger w.db e ids present),
      )
    ]

-- Whatever the automatic bids do, the hold on every wallet less its owner's bids is as it was, where
-- bid ids are below the next fresh one and the trigger's bidder has a wallet.
pub process_ladder-excess :
    (uid auction_id trigger_id now : ℕ) (w : World)
    → IdsBelow w.db.next_id w.db.bids
    → find_wallet trigger_id w.db.wallets ≢ none
    → excess uid (process_ladder auction_id trigger_id now w).1.db ≡ excess uid w.db
unfolding process_ladder
process_ladder-excess uid auction_id trigger_id now w ids present =
    elim (Option-cases (find_auction auction_id w.db.auctions)) [
      | inl missing ↦ ground arith
      | inr (a, e) ↦ ground (
        arith,
        ladder_body-excess uid a (competing auction_id trigger_id w.db) trigger_id now
            (record w { locks = auction_row auction_id ∷ [] }) ids present,
      )
    ]
