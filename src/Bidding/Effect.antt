-- ===== src/Bidding/Effect.antt =====
-- What an accepted bid has passed and what it writes, in closed form.
use auctionhaus.Prelude.{
  ℕ, ◌+◌, ◌≤◌, ◌<◌, ◌≡◌, ◌≢◌, Bool, true, false, Option, none, some, pos, ◌-ℤ◌, ◌≤ℤ◌, neg, refl,
  if◌then◌else◌, arith,
}
use auctionhaus.Schema.{Auction, Bid, is_active, is_english, is_dutch, is_sealed}
use auctionhaus.Store.{
  Db, find_wallet, find_winning, adjust, adjust_wallet, set_bid_status, log_transaction, create_bid,
  update_auction,
}
use auctionhaus.Store.Wallets.{balance_of, held_of, find_wallet-adjust_some}
use auctionhaus.Tx.{World, ok, wallet_or}
use auctionhaus.Bidding.{
  check_amount, validate, lock_wallets, check_wallet, release_bid, hold_bid, release_previous,
  new_bid, after_bid, accept_bid,
}

-- The bid whose hold is given back.
abbrev pub previous : Auction → Db → Option Bid
previous a db = if is_english a.kind then find_winning a.id db.bids else none

abbrev pub give_back : Option Bid → Db → Db
give_back none db = db
give_back (some b) db = release_bid b db

abbrev pub released : Auction → Db → Db
released a db = give_back (previous a db) db

-- The tables before a Dutch bid settles.
abbrev pub accepted : Auction → Bid → ℕ → Db → Db
accepted a bid now db = update_auction a.id (after_bid bid now) (hold_bid bid (released a db))

-- The amount fits the kind of auction.
abbrev pub Fits : Auction → ℕ → Type 0
Fits a amount =
    (is_english a.kind ≡ true → a.current_price + a.min_increment ≤ amount)
    × (is_dutch a.kind ≡ true → amount ≡ a.current_price)
    × (is_sealed a.kind ≡ true → a.starting_price < amount)

pub record Passed (a : Auction) (bidder_id amount now : ℕ) (db : Db) : Type 0 where
  pub live : is_active a.status ≡ true
  pub not_own : a.seller_id ≢ bidder_id
  pub in_time : now ≤ a.end_time
  pub fits : Fits a amount
  pub has_wallet : find_wallet bidder_id db.wallets ≢ none
  pub covered : pos amount ≤ℤ balance_of bidder_id db.wallets -ℤ held_of bidder_id db.wallets

pub accept_bid-Passed :
    (a : Auction) (bidder_id amount now : ℕ) (auto : Bool) (w w' : World) {b : Bid}
    → accept_bid a bidder_id amount auto now w ≡ (ok b, w')
    → Passed a bidder_id amount now w.db
unfolding accept_bid validate check_amount lock_wallets check_wallet wallet_or balance_of held_of
accept_bid-Passed a bidder_id amount now auto w w' h = ground arith

pub accept_bid-db :
    (a : Auction) (bidder_id amount now : ℕ) (auto : Bool) (w w' : World) {b : Bid}
    → is_dutch a.kind ≡ false
    → accept_bid a bidder_id amount auto now w ≡ (ok b, w')
    → (b ≡ new_bid a.id bidder_id amount auto now (released a w.db))
      × (w'.db ≡ accepted a b now w.db)
unfolding accept_bid validate check_amount lock_wallets check_wallet release_previous wallet_or
accept_bid-db a bidder_id amount now auto w w' d h = ground arith

-- The previous bidder has a wallet.
pub accept_bid-previous :
    (a : Auction) (bidder_id amount now : ℕ) (auto : Bool) (w w' : World) (p : Bid) {b : Bid}
    → accept_bid a bidder_id amount auto now w ≡ (ok b, w')
    → previous a w.db ≡ some p
    → find_wallet p.bidder_id w.db.wallets ≢ none
unfolding accept_bid validate check_amount lock_wallets check_wallet release_previous wallet_or
accept_bid-previous a bidder_id amount now auto w w' p h e = ground arith

pub wallets-release_bid :
    (b : Bid) (db : Db)
    → (release_bid b db).wallets ≡ adjust b.bidder_id (pos 0) (neg (pos b.amount)) db.wallets
unfolding release_bid set_bid_status adjust_wallet log_transaction
wallets-release_bid b db = refl

pub wallets-hold_bid :
    (b : Bid) (db : Db)
    → (hold_bid b db).wallets ≡ adjust b.bidder_id (pos 0) (pos b.amount) db.wallets
unfolding hold_bid create_bid adjust_wallet log_transaction
wallets-hold_bid b db = refl

pub has_wallet-give_back :
    (uid : ℕ) (o : Option Bid) (db : Db)
    → find_wallet uid db.wallets ≢ none
    → find_wallet uid (give_back o db).wallets ≢ none
has_wallet-give_back uid none db h = h
has_wallet-give_back uid (some b) db h =
    rw (wallets-release_bid b db) (find_wallet-adjust_some b.bidder_id uid _ _ db.wallets h)
