-- ===== src/Store/Holds.antt =====
-- What the hold on a wallet is for: the user's bids that are WINNING, and those that are WON in an
-- auction that has not settled. `excess` is the hold less their sum, and ought to stay zero.
use auctionhaus.Prelude.{
  ℕ, ◌≡◌, ◌≢◌, refl, Option, Bool, true, false, not, ◌&&◌, ◌||◌, none, some, List, ℤ, pos, ◌+ℤ◌,
  ◌-ℤ◌, ◌==◌, if◌then◌else◌, find_first, sum_of, int_laws, parts_of_eq,
}
use auctionhaus.Schema.{Auction, Bid, BidStatus, TransactionType, Settlement, is_winning, is_won}
use auctionhaus.Store.{
  Db, find_wallet, find_settlement, adjust_wallet, set_bid_status, log_transaction, update_auction,
  create_bid,
}
use auctionhaus.Store.Wallets.{held_of, held_of-adjust}
use auctionhaus.Store.Bids.{sum_of-set_status}

abbrev pub settled_in : List Settlement → ℕ → Bool
settled_in ss auction_id = elim (find_settlement auction_id ss) [ none ↦ false | some _ ↦ true ]

abbrev pub encumbers : List Settlement → Bid → Bool
encumbers ss b = is_winning b.status || (is_won b.status && not (settled_in ss b.auction_id))

abbrev pub hold_weight : List Settlement → ℕ → Bid → ℤ
hold_weight ss uid b = if b.bidder_id == uid && encumbers ss b then pos b.amount else pos 0

unfoldable pub encumbered : ℕ → Db → ℤ
encumbered uid db = sum_of (hold_weight db.settlements uid) db.bids

unfoldable pub excess : ℕ → Db → ℤ
unfolding encumbered
excess uid db = held_of uid db.wallets -ℤ encumbered uid db

pub excess-adjust_wallet :
    (uid u : ℕ) (credit hold : ℤ) (db : Db)
    → find_wallet u db.wallets ≢ none
    → excess uid (adjust_wallet u credit hold db)
      ≡ (if u == uid then excess uid db +ℤ hold else excess uid db)
unfolding excess adjust_wallet
excess-adjust_wallet uid u credit hold db present =
    let e = held_of-adjust u uid credit hold db.wallets present in grind (int_laws, e)

-- A bid leaves the set that the hold is for.
pub excess-set_bid_status :
    (uid : ℕ) (s : BidStatus) (db : Db) (b : Bid)
    → find_first (λ x. x.id == b.id) db.bids ≡ some b
    → excess uid (set_bid_status b.id s db)
      ≡ excess uid db
        +ℤ hold_weight db.settlements uid b
        -ℤ hold_weight db.settlements uid (record b { status = s })
unfolding excess set_bid_status
excess-set_bid_status uid s db b found =
    let weight : Bid → ℤ = hold_weight db.settlements uid in
    let e = sum_of-set_status weight b.id s db.bids found in omega (int_laws, parts_of_eq _ _ e)

pub excess-create_bid :
    (uid : ℕ) (db : Db) (b : Bid)
    → excess uid (create_bid b db) ≡ excess uid db -ℤ hold_weight db.settlements uid b
unfolding excess create_bid sum_of
excess-create_bid uid db b = omega int_laws

pub excess-log_transaction :
    (uid u : ℕ) (kind : TransactionType) (amount : ℤ) (reference : Option ℕ) (db : Db)
    → excess uid (log_transaction u kind amount reference db) ≡ excess uid db
unfolding excess log_transaction
excess-log_transaction uid u kind amount reference db = refl

pub excess-update_auction :
    (uid id : ℕ) (f : Auction → Auction) (db : Db)
    → excess uid (update_auction id f db) ≡ excess uid db
unfolding excess update_auction
excess-update_auction uid id f db = refl
