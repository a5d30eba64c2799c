-- ===== src/Store.antt =====
-- The tables, and the writes that the services make of them (the calls of the database client, each
-- one an update of one table). Rows stand newest first; `next_id` stands for the fresh uuids.
pub mod Wallets
pub mod Bids
pub mod Holds
use auctionhaus.Prelude.{
  ℕ, ◌+◌, Bool, ◌&&◌, Option, List, [], ◌∷◌, ℤ, pos, ◌+ℤ◌, neg, ◌==◌, find_first, update_first,
}
use auctionhaus.Schema.{
  Wallet, Transaction, TransactionType, Auction, Bid, BidStatus, AutoBid, Settlement, Commitment,
  is_winning,
}

pub record Db : Type 0 where
  pub wallets : List Wallet
  pub auctions : List Auction
  pub bids : List Bid
  pub auto_bids : List AutoBid
  pub transactions : List Transaction
  pub settlements : List Settlement
  pub commitments : List Commitment
  pub next_id : ℕ

-- `wallet.findUnique({ where: { userId } })`
unfoldable pub find_wallet : ℕ → List Wallet → Option Wallet
unfolding find_first
find_wallet uid = find_first (λ w. w.user_id == uid)

-- `auction.findUnique({ where: { id } })`
unfoldable pub find_auction : ℕ → List Auction → Option Auction
unfolding find_first
find_auction id = find_first (λ a. a.id == id)

-- `settlement.findUnique({ where: { auctionId } })`
unfoldable pub find_settlement : ℕ → List Settlement → Option Settlement
unfolding find_first
find_settlement auction_id = find_first (λ s. s.auction_id == auction_id)

abbrev pub wins : ℕ → Bid → Bool
wins auction_id b = b.auction_id == auction_id && is_winning b.status

-- `bid.findFirst({ where: { auctionId, status: 'WINNING' } })`
unfoldable pub find_winning : ℕ → List Bid → Option Bid
unfolding find_first
find_winning auction_id = find_first (wins auction_id)

-- `wallet.update` with an increment of each of the two columns; a decrement is a negative one.
unfoldable pub adjust : ℕ → ℤ → ℤ → List Wallet → List Wallet
unfolding update_first
adjust uid credit hold =
    update_first (λ w. w.user_id == uid)
      λ w. record w { balance = w.balance +ℤ credit; held_amount = w.held_amount +ℤ hold }

unfoldable pub set_status : ℕ → BidStatus → List Bid → List Bid
unfolding update_first
set_status id status = update_first (λ b. b.id == id) (λ b. record b { status = status })

unfoldable pub adjust_wallet : ℕ → ℤ → ℤ → Db → Db
unfolding adjust
adjust_wallet uid credit hold db = record db { wallets = adjust uid credit hold db.wallets }

unfoldable pub set_bid_status : ℕ → BidStatus → Db → Db
unfolding set_status
set_bid_status id status db = record db { bids = set_status id status db.bids }

-- `transaction.create`
unfoldable pub log_transaction : ℕ → TransactionType → ℤ → Option ℕ → Db → Db
log_transaction uid kind amount reference db = record db {
  transactions =
      record { user_id = uid; kind = kind; amount = amount; reference_id = reference }
      ∷ db.transactions;
}

-- `bid.create`
unfoldable pub create_bid : Bid → Db → Db
create_bid b db = record db { bids = b ∷ db.bids; next_id = db.next_id + 1 }

-- `settlement.create`
unfoldable pub create_settlement : Settlement → Db → Db
create_settlement s db = record db { settlements = s ∷ db.settlements }

-- `auction.update({ where: { id } })`
unfoldable pub update_auction : ℕ → (Auction → Auction) → Db → Db
unfolding update_first
update_auction id f db = record db { auctions = update_first (λ a. a.id == id) f db.auctions }
