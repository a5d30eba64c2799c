-- ===== src/AuctionService/Cancel.antt =====
-- What a cancellation does to the money. The hold that a winning bid took is given back; but the
-- refund is also added to the balance, which the bid had never been taken from.
use auctionhaus.Tx.{World, Error, ok, err, lock_auction, insert_id, sort_ids}
use auctionhaus.Prelude.{
  Option-cases, inl, inr, keep, arith, some, Bool, true, false, ◌⊎◌, ℕ, ◌≡◌, ◌≢◌, sym, refl, none,
  List, [], ◌∷◌, pos, neg, ◌+ℤ◌, int_laws, parts_of_eq,
}
use auctionhaus.Schema.{Bid, Auction, is_ended, is_cancelled}
use auctionhaus.Store.{
  Db, find_auction, update_auction, wins, find_wallet, adjust_wallet, log_transaction,
}
use auctionhaus.Store.Wallets.{total_balance, total_balance-adjust, find_wallet-adjust_some}
use auctionhaus.AuctionService.{
  refund_of, refund_user, refund_all, refunded_users, cancel_body, cancel_auction,
}
use auctionhaus.AuctionService.Refunds.{backed, refunds, refunds-backed}

wallets-refund_user :
    (id : ℕ) (tops : List Bid) (uid : ℕ) (db : Db)
    → (refund_user id tops uid db).wallets
      ≡ (adjust_wallet uid (pos (refund_of uid tops)) (neg (pos (refund_of uid tops))) db).wallets
unfolding refund_user log_transaction
wallets-refund_user id tops uid db = refl

abbrev pub AllHave : List ℕ → Db → Type 0
AllHave [] db = Unit
AllHave (uid ∷ uids) db = (find_wallet uid db.wallets ≢ none) × AllHave uids db

AllHave-refund_user :
    (id : ℕ) (tops : List Bid) (u : ℕ) (uids : List ℕ) (db : Db)
    → AllHave uids db
    → AllHave uids (refund_user id tops u db)
unfolding adjust_wallet
AllHave-refund_user id tops u [] db h = tt
AllHave-refund_user id tops u (uid ∷ uids) db h = (
  rw (wallets-refund_user id tops u db) (find_wallet-adjust_some u uid _ _ db.wallets h.0),
  AllHave-refund_user id tops u uids db h.1,
)

refund_all-total :
    (id : ℕ) (tops : List Bid) (uids : List ℕ) (db : Db)
    → AllHave uids db
    → total_balance (refund_all id tops uids db).wallets
      ≡ total_balance db.wallets +ℤ pos (refunds tops uids)
unfolding refund_all refunds adjust_wallet
refund_all-total id tops [] db h = omega int_laws
refund_all-total id tops (uid ∷ uids) db h =
    let rest =
      refund_all-total id tops uids (refund_user id tops uid db)
        (AllHave-refund_user id tops uid uids db h.1) in
    let amount = pos (refund_of uid tops) in
    let first = total_balance-adjust uid amount (neg amount) db.wallets h.0 in
    let e : total_balance (refund_user id tops uid db).wallets
        ≡ total_balance db.wallets +ℤ amount =
      rw (wallets-refund_user id tops uid db) first in
    rw rest (omega (int_laws, parts_of_eq _ _ e))

-- Each of the bidders to refund has a wallet.
AllHave-insert_id :
    (i : ℕ) (uids : List ℕ) (db : Db)
    → find_wallet i db.wallets ≢ none
    → AllHave uids db
    → AllHave (insert_id i uids) db
unfolding insert_id
AllHave-insert_id i [] db h hs = (h, tt)
AllHave-insert_id i (j ∷ js) db h hs = ground (arith, AllHave-insert_id i js db)

AllHave-refunded_users : (tops : List Bid) (db : Db) → AllHave (refunded_users tops db) db
unfolding sort_ids keep
AllHave-refunded_users [] db = tt
AllHave-refunded_users (b ∷ bs) db = elim (Option-cases (find_wallet b.bidder_id db.wallets)) [
  | inl e ↦ rw e (AllHave-refunded_users bs db)
  | inr (w, e) ↦
      let has : find_wallet b.bidder_id db.wallets ≢ none = ground arith in
      rw e
        (AllHave-insert_id b.bidder_id (refunded_users bs db) db has (AllHave-refunded_users bs db))
]

-- The winning bids of an auction.
abbrev pub winning_bids : ℕ → Db → List Bid
winning_bids auction_id db = keep (wins auction_id) db.bids

-- A cancellation that succeeds adds to the sum of all balances the amounts of those winning bids of
-- the auction whose bidders have a wallet, each amount once, although the bids had been taken out of
-- no balance.
pub cancel_auction-total :
    (auction_id user_id : ℕ) (admin : Bool) (w w' : World) (a : Auction) {b : Auction}
    → find_auction auction_id w.db.auctions ≡ some a
    → cancel_auction auction_id user_id admin w ≡ (ok b, w')
    → total_balance w'.db.wallets
      ≡ total_balance w.db.wallets +ℤ pos (backed (winning_bids a.id w.db) w.db)
unfolding cancel_auction cancel_body lock_auction update_auction
cancel_auction-total auction_id user_id admin w w' a e h =
    let tops = winning_bids a.id w.db in
    let uids = refunded_users tops w.db in
    rw (sym (refunds-backed w.db tops))
      (ground (arith, refund_all-total a.id tops uids w.db (AllHave-refunded_users tops w.db)))

-- Only the seller or an administrator cancels, and neither an ended nor a cancelled auction; a
-- refusal, for whatever reason, leaves the tables as they were.
pub cancel_auction_lem :
    (auction_id user_id : ℕ) (admin : Bool) (w : World) (a : Auction)
    → find_auction auction_id w.db.auctions ≡ some a
    → let (r, w') = cancel_auction auction_id user_id admin w in
      ((b : Auction)
        → r ≡ ok b
        → ((admin ≡ true) ⊎ (a.seller_id ≡ user_id))
          × (is_ended a.status ≡ false)
          × (is_cancelled a.status ≡ false))
      × ((x : Error) → r ≡ err x → w'.db ≡ w.db)
unfolding cancel_auction cancel_body lock_auction
cancel_auction_lem auction_id user_id admin w a e = (λ b h. ground arith, λ x h. ground arith)
