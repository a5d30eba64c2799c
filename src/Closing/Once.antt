-- ===== src/Closing/Once.antt =====
-- An auction ends once: the job may be delivered again.
use mathlib.Core.Option
use auctionhaus.Prelude.{
  ℕ, ◌≡◌, refl, true, some, Option-cases, Bool-cases, inl, inr, List, [], ◌∷◌, arith, ◌==◌, keep,
  find_first, update_first,
}
use auctionhaus.Schema.{Auction, Bid, NotificationType, is_ended}
use auctionhaus.Store.{
  Db, wins, find_auction, update_auction, adjust_wallet, log_transaction, set_bid_status,
  create_settlement,
}
use auctionhaus.Escrow.{Params, settle_within_tx, settle_fresh, move_money}
use auctionhaus.Tx.{World, wallet_or, notify, auction_row}
use auctionhaus.Closing.{
  Ending, ending_of, first_bid, by_amount, closed_row, determine, refund_sealed, refund_losers,
  refund_loser, mark_bid, settle_winner, notify_all, finish, end_auction,
}

-- An auction that is ENDED, or not there, is left alone: no table changes, and nothing is sent.
pub end_auction_idle :
    (auction_id now : ℕ) (watchers : List ℕ) (w : World)
    → ((a : Auction) → find_auction auction_id w.db.auctions ≡ some a → is_ended a.status ≡ true)
    → let w' = (end_auction auction_id watchers now w).1 in (w'.db ≡ w.db) × (w'.outbox ≡ w.outbox)
unfolding end_auction determine
end_auction_idle auction_id now watchers w ended =
    elim (Option-cases (find_auction auction_id w.db.auctions)) [
      | inl missing ↦ (ground arith, ground arith)
      | inr (a, e) ↦ (ground (arith, ended a e), ground (arith, ended a e))
    ]

pub find_auction-update :
    (auction_id : ℕ) (f : Auction → Auction) (db : Db)
    → ((a : Auction) → (f a).id ≡ a.id)
    → find_auction auction_id (update_auction auction_id f db).auctions
      ≡ Option.map f (find_auction auction_id db.auctions)
unfolding find_auction update_auction
find_auction-update auction_id f db same = go db.auctions
  where
    go :
        (as_ : List Auction)
        → find_first (λ a. a.id == auction_id) (update_first (λ a. a.id == auction_id) f as_)
          ≡ Option.map f (find_first (λ a. a.id == auction_id) as_)
    go [] = refl
    go (a ∷ rest) = ground (arith, go rest, same a)

auctions-refund_losers :
    (id now : ℕ) (bs : List Bid) (db : Db) → (refund_losers id now bs db).auctions ≡ db.auctions
unfolding refund_losers refund_loser mark_bid log_transaction adjust_wallet
auctions-refund_losers id now [] db = refl
auctions-refund_losers id now (b ∷ bs) db =
    ground (arith, auctions-refund_losers id now bs (refund_loser id now b db))

auctions-refund_sealed :
    (id now : ℕ) (w : World) → (refund_sealed id now w).1.db.auctions ≡ w.db.auctions
unfolding refund_sealed mark_bid
auctions-refund_sealed id now w = grind (arith, auctions-refund_losers)

pub auctions-settle :
    (p : Params) (w : World) → (settle_within_tx p w).1.db.auctions ≡ w.db.auctions
unfolding settle_within_tx settle_fresh wallet_or move_money adjust_wallet log_transaction
    create_settlement
auctions-settle p w = ground arith

auctions-settle_winner :
    (a : Auction) (b : Bid) (w : World) → (settle_winner a b w).1.db.auctions ≡ w.db.auctions
unfolding settle_winner set_bid_status
auctions-settle_winner a b w = grind (arith, auctions-settle)

pub db-notify_all :
    (kind : NotificationType) (uids : List ℕ) (w : World) → (notify_all kind uids w).1.db ≡ w.db
unfolding notify_all
db-notify_all kind [] w = refl
db-notify_all kind (uid ∷ uids) w =
    db-notify_all kind uids (record w { outbox = notify uid kind ∷ w.outbox })

-- What follows the first transaction changes no auction.
auctions-finish :
    (e : Ending) (watchers : List ℕ) (now : ℕ) (w : World)
    → (finish e watchers now w).1.db.auctions ≡ w.db.auctions
unfolding finish
auctions-finish e watchers now w =
    grind (arith, auctions-refund_sealed, auctions-settle_winner, db-notify_all)

id-closed_row : (e : Ending) (now : ℕ) (a : Auction) → (closed_row e now a).id ≡ a.id
id-closed_row e now a = ground arith

closed_row-ended :
    (e : Ending) (now : ℕ) (a : Auction) → is_ended (closed_row e now a).status ≡ true
closed_row-ended e now a = ground arith

-- After the job an auction is ENDED, if there is one.
pub end_auction-ended :
    (auction_id now : ℕ) (watchers : List ℕ) (w : World) (a : Auction)
    → find_auction auction_id (end_auction auction_id watchers now w).1.db.auctions ≡ some a
    → is_ended a.status ≡ true
unfolding end_auction determine
end_auction-ended auction_id now watchers w a h =
    elim (Option-cases (find_auction auction_id w.db.auctions)) [
      | inl missing ↦ ground arith
      | inr (x, found) ↦
          let e = ending_of x (first_bid (by_amount (keep (wins auction_id) w.db.bids))) in
          let closed : World = record {
            db = update_auction auction_id (closed_row e now) w.db;
            locks = auction_row auction_id ∷ [];
            outbox = w.outbox;
          } in
          elim (Bool-cases (is_ended x.status)) [
            | inl ended ↦ ground arith
            | inr open_ ↦ ground (
              arith,
              auctions-finish e watchers now closed,
              find_auction-update auction_id (closed_row e now) w.db (id-closed_row e now),
              closed_row-ended e now x,
            )
          ]
    ]

-- Whatever the tables, a job that is delivered twice ends the auction once: the second run changes
-- no table and sends nothing.
pub end_auction_twice :
    (auction_id now later : ℕ) (watchers others_ : List ℕ) (w : World)
    → let once = (end_auction auction_id watchers now w).1 in
      let twice = (end_auction auction_id others_ later once).1 in
      (twice.db ≡ once.db) × (twice.outbox ≡ once.outbox)
end_auction_twice auction_id now later watchers others_ w =
    end_auction_idle auction_id later others_ (end_auction auction_id watchers now w).1
      (end_auction-ended auction_id now watchers w)
