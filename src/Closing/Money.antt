-- ===== src/Closing/Money.antt =====
-- Ending an auction moves money and makes none.
use auctionhaus.Prelude.{
  ℕ, ◌≡◌, ◌∙◌, refl, Option-cases, inl, inr, List, [], ◌∷◌, pos, neg, arith, int_laws,
}
use auctionhaus.Schema.{Auction, Bid}
use auctionhaus.Store.{
  Db, find_wallet, adjust_wallet, log_transaction, set_bid_status, update_auction,
}
use auctionhaus.Store.Wallets.{total_balance, total_balance-adjust}
use auctionhaus.Escrow.Money.{settle-total_any}
use auctionhaus.Tx.{World}
use auctionhaus.Closing.{
  Ending, refund_loser, refund_losers, mark_bid, refund_sealed, settle_winner, finish, determine,
  end_auction,
}
use auctionhaus.Closing.Once.{db-notify_all}

-- A refund changes no balance.
refund_loser-total :
    (id now : ℕ) (b : Bid) (db : Db)
    → total_balance (refund_loser id now b db).wallets ≡ total_balance db.wallets
unfolding refund_loser mark_bid log_transaction adjust_wallet
refund_loser-total id now b db = elim (Option-cases (find_wallet b.bidder_id db.wallets)) [
  | inl e ↦ ground arith
  | inr (w, e) ↦
      grind (int_laws, total_balance-adjust b.bidder_id (pos 0) (neg (pos b.amount)) db.wallets)
]

refund_losers-total :
    (id now : ℕ) (bs : List Bid) (db : Db)
    → total_balance (refund_losers id now bs db).wallets ≡ total_balance db.wallets
unfolding refund_losers
refund_losers-total id now [] db = refl
refund_losers-total id now (b ∷ bs) db =
    refund_losers-total id now bs (refund_loser id now b db) ∙ refund_loser-total id now b db

refund_sealed-total :
    (id now : ℕ) (w : World)
    → total_balance (refund_sealed id now w).1.db.wallets ≡ total_balance w.db.wallets
unfolding refund_sealed mark_bid
refund_sealed-total id now w = grind (arith, refund_losers-total)

settle_winner-total :
    (a : Auction) (b : Bid) (w : World)
    → total_balance (settle_winner a b w).1.db.wallets ≡ total_balance w.db.wallets
unfolding settle_winner set_bid_status
settle_winner-total a b w = grind (arith, settle-total_any)

finish-total :
    (e : Ending) (watchers : List ℕ) (now : ℕ) (w : World)
    → total_balance (finish e watchers now w).1.db.wallets ≡ total_balance w.db.wallets
unfolding finish
finish-total e watchers now w =
    grind (arith, refund_sealed-total, settle_winner-total, db-notify_all)

-- Ending an auction, with or without a winner, neither makes nor loses money.
pub end_auction-total :
    (auction_id now : ℕ) (watchers : List ℕ) (w : World)
    → total_balance (end_auction auction_id watchers now w).1.db.wallets
      ≡ total_balance w.db.wallets
unfolding end_auction determine update_auction
end_auction-total auction_id now watchers w = grind (arith, finish-total)
