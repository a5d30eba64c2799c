-- ===== src/AuctionService/Sales.antt =====
-- `buyNow`: the sale at the fixed price.
use auctionhaus.Prelude.{
  ℕ, ◌≡◌, ◌≢◌, arith, Option-cases, inl, inr, some, none, true, pos, ◌≤ℤ◌, [], ◌∷◌,
}
use auctionhaus.Schema.{Auction, is_active}
use auctionhaus.Store.{find_auction, find_wallet, update_auction, create_settlement}
use auctionhaus.Store.Wallets.{balance_of, total_balance}
use auctionhaus.Tx.{World, ok, lock_auction, auction_row}
use auctionhaus.Escrow.{move_money, settlement_row}
use auctionhaus.Escrow.Money.{settle-total_any}
use auctionhaus.AuctionService.{sale_of, bought, buy_body, buy_now}

abbrev at_row : ℕ → World → World
at_row auction_id w = record w { locks = auction_row auction_id ∷ [] }

-- A purchase neither makes nor loses money.
pub buy_now-total :
    (auction_id buyer_id now : ℕ) (w w' : World) {a : Auction}
    → buy_now auction_id buyer_id now w ≡ (ok a, w')
    → total_balance w'.db.wallets ≡ total_balance w.db.wallets
unfolding buy_now buy_body update_auction lock_auction
buy_now-total auction_id buyer_id now w w' h =
    elim (Option-cases (find_auction auction_id w.db.auctions)) [
      | inl e ↦ ground arith
      | inr (a, e) ↦ elim (Option-cases a.buy_now_price) [
        | inl free ↦ ground arith
        | inr (price, priced) ↦
            ground (arith, settle-total_any (sale_of a buyer_id price) (at_row auction_id w))
      ]
    ]

-- What was found when the auction is sold, and the wallets afterwards.
record Sold (a : Auction) (buyer_id now price : ℕ) (w w' : World) (b : Auction) : Type 0 where
  priced : a.buy_now_price ≡ some price
  live : is_active a.status ≡ true
  apart : a.seller_id ≢ buyer_id
  covered : pos price ≤ℤ balance_of buyer_id w.db.wallets
  row : b ≡ bought buyer_id price now a
  has_buyer : find_wallet buyer_id w.db.wallets ≢ none
  has_seller : find_wallet a.seller_id w.db.wallets ≢ none
  paid :
      w'.db.wallets
      ≡ (move_money
          (sale_of a buyer_id price)
          (create_settlement (settlement_row (sale_of a buyer_id price)) w.db)).wallets
