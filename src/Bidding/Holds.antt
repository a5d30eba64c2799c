-- ===== src/Bidding/Holds.antt =====
-- The hold on every wallet keeps to the bids that it is for.
use auctionhaus.Prelude.{
  ℕ, ◌≡◌, ◌≢◌, refl, ap, Bool, true, false, none, some, Option, pos, neg, ◌==◌, find_first, arith,
  int_laws, ◌∙◌,
}
use auctionhaus.Schema.{Auction, TransactionType, Bid, BidStatus, is_winning, is_dutch}
use auctionhaus.Store.{Db, find_wallet, adjust_wallet, set_bid_status, log_transaction}
use auctionhaus.Store.Wallets.{wallets-set_bid_status}
use auctionhaus.Store.Bids.{IdsBelow, find_winning-facts}
use auctionhaus.Store.Holds.{
  excess, excess-adjust_wallet, excess-set_bid_status, excess-create_bid, excess-update_auction,
  excess-log_transaction,
}
use auctionhaus.Tx.{World, ok}
use auctionhaus.Bidding.{release_bid, hold_bid, accept_bid, after_bid}
use auctionhaus.Bidding.Effect.{
  previous, released, accepted, give_back, has_wallet-give_back, accept_bid-db, accept_bid-Passed,
  accept_bid-previous, Passed,
}

pub excess-release_bid :
    (uid : ℕ) (b : Bid) (db : Db)
    → find_first (λ x. x.id == b.id) db.bids ≡ some b
    → is_winning b.status ≡ true
    → find_wallet b.bidder_id db.wallets ≢ none
    → excess uid (release_bid b db) ≡ excess uid db
unfolding release_bid
excess-release_bid uid b db found wins present =
    let marked : Db = set_bid_status b.id BidStatus.outbid db in
    let paid : Db = adjust_wallet b.bidder_id (pos 0) (neg (pos b.amount)) marked in
    rw (excess-log_transaction uid b.bidder_id _ (pos b.amount) (some b.auction_id) paid) (
      grind (
        int_laws,
        wallets-set_bid_status b.id BidStatus.outbid db,
        excess-adjust_wallet uid b.bidder_id (pos 0) (neg (pos b.amount)) marked,
        excess-set_bid_status uid BidStatus.outbid db b found,
      ))

pub excess-hold_bid :
    (uid : ℕ) (b : Bid) (db : Db)
    → is_winning b.status ≡ true
    → find_wallet b.bidder_id db.wallets ≢ none
    → excess uid (hold_bid b db) ≡ excess uid db
unfolding hold_bid
excess-hold_bid uid b db wins present =
    let held : Db = adjust_wallet b.bidder_id (pos 0) (pos b.amount) db in
    grind (
      int_laws,
      excess-create_bid uid
          (log_transaction b.bidder_id TransactionType.bid_hold (neg (pos b.amount))
            (some b.auction_id) held)
          b,
      excess-log_transaction uid b.bidder_id TransactionType.bid_hold (neg (pos b.amount))
          (some b.auction_id) held,
      excess-adjust_wallet uid b.bidder_id (pos 0) (pos b.amount) db,
    )

-- A bid that an update by its id reaches, that holds money, and whose bidder has a wallet.
abbrev pub IsHeld : Db → Bid → Type 0
IsHeld db p =
    (find_first (λ x. x.id == p.id) db.bids ≡ some p)
    × (is_winning p.status ≡ true)
    × (find_wallet p.bidder_id db.wallets ≢ none)

excess-give_back :
    (uid : ℕ) (o : Option Bid) (db : Db)
    → ((p : Bid) → o ≡ some p → IsHeld db p)
    → excess uid (give_back o db) ≡ excess uid db
excess-give_back uid none db h = refl
excess-give_back uid (some p) db h =
    let (found, wins, present) = h p refl in excess-release_bid uid p db found wins present

previous-IsHeld :
    (a : Auction) (db : Db)
    → IdsBelow db.next_id db.bids
    → ((p : Bid) → previous a db ≡ some p → find_wallet p.bidder_id db.wallets ≢ none)
    → (p : Bid) → previous a db ≡ some p
    → IsHeld db p
previous-IsHeld a db ids has p e =
    ground (arith, has p e, find_winning-facts db.next_id a.id db.bids {b = p} ids)

-- Giving back the previous hold and taking the new one keeps the holds and the bids in step.
pub excess-accepted :
    (uid : ℕ) (a : Auction) (b : Bid) (now : ℕ) (db : Db)
    → IdsBelow db.next_id db.bids
    → ((p : Bid) → previous a db ≡ some p → find_wallet p.bidder_id db.wallets ≢ none)
    → is_winning b.status ≡ true
    → find_wallet b.bidder_id db.wallets ≢ none
    → excess uid (accepted a b now db) ≡ excess uid db
excess-accepted uid a b now db ids prev wins present =
    excess-update_auction uid a.id (after_bid b now) (hold_bid b (released a db))
    ∙ excess-hold_bid uid b (released a db) wins
        (has_wallet-give_back b.bidder_id (previous a db) db present)
    ∙ excess-give_back uid (previous a db) db (previous-IsHeld a db ids prev)

-- An English or sealed bid that is accepted changes the hold on each wallet by exactly what it
-- changes in the winning bids of its owner.
pub accept_bid-excess :
    (uid : ℕ) (a : Auction) (bidder_id amount now : ℕ) (auto : Bool) (w w' : World) {b : Bid}
    → IdsBelow w.db.next_id w.db.bids
    → is_dutch a.kind ≡ false
    → accept_bid a bidder_id amount auto now w ≡ (ok b, w')
    → excess uid w'.db ≡ excess uid w.db
accept_bid-excess uid a bidder_id amount now auto w w' {b} ids kind h =
    let (made, tables) = accept_bid-db a bidder_id amount now auto w w' kind h in
    let passed : Passed a bidder_id amount now w.db =
      accept_bid-Passed a bidder_id amount now auto w w' h in
    ap (excess uid) tables
    ∙ excess-accepted uid a b now w.db ids
        (λ p e. accept_bid-previous a bidder_id amount now auto w w' p h e) (rw made)
        (rw made passed.has_wallet)
