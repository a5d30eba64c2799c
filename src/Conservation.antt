-- ===== src/Conservation.antt =====
-- The services and jobs that move money, in whatever order they come: `placeBid`, the price drop, the
-- end of an auction, `confirmWinnerPayment` and `buyNow`.
pub mod Ledger
pub mod Revenue
mod Tests
use auctionhaus.Prelude.{ℕ, ◌≡◌, refl, ◌∙◌, sym, Bool, List, [], ◌∷◌, arith, inl, inr, ◌⊎◌}
use auctionhaus.Tx.{World, Error, Result, ok, err}
use auctionhaus.Store.Wallets.{total_balance}
use auctionhaus.Schema.{Auction}
use auctionhaus.Bidding.{place_bid}
use auctionhaus.Bidding.Money.{place_bid-total}
use auctionhaus.Schedule.{drop_price}
use auctionhaus.Schedule.Money.{drop_price-total}
use auctionhaus.Closing.{end_auction}
use auctionhaus.Closing.Money.{end_auction-total}
use auctionhaus.Payment.{confirm_winner_payment}
use auctionhaus.Payment.Laws.{confirm-total}
use auctionhaus.AuctionService.{buy_now}
use auctionhaus.AuctionService.Sales.{buy_now-total}

-- A call or a job with its arguments and its time; `bid` says whether it is automatic.
pub data Operation : Type 0 where
  bid : (auction_id bidder_id amount now : ℕ) (auto : Bool) → Operation
  drop : (auction_id step now : ℕ) (watchers : List ℕ) → Operation
  ending : (auction_id now : ℕ) (watchers : List ℕ) → Operation
  confirmation : (auction_id winner_id : ℕ) → Operation
  purchase : (auction_id buyer_id now : ℕ) → Operation

-- The state after it, whether it succeeds or fails.
abbrev pub perform : Operation → World → World
perform (bid auction_id bidder_id amount now auto) w =
    (place_bid auction_id bidder_id amount auto now w).1
perform (drop auction_id step now watchers) w = (drop_price auction_id step watchers now w).1
perform (ending auction_id now watchers) w = (end_auction auction_id watchers now w).1
perform (confirmation auction_id winner_id) w = (confirm_winner_payment auction_id winner_id w).1
perform (purchase auction_id buyer_id now) w = (buy_now auction_id buyer_id now w).1

abbrev pub perform_all : List Operation → World → World
perform_all [] w = w
perform_all (o ∷ os) w = perform_all os (perform o w)

buy_now_refused :
    (auction_id buyer_id now : ℕ) (w w' : World) (e : Error)
    → buy_now auction_id buyer_id now w ≡ (err e, w')
    → w'.db ≡ w.db
unfolding buy_now
buy_now_refused auction_id buyer_id now w w' e failed = ground arith

buy_now-total_any :
    (auction_id buyer_id now : ℕ) (w : World)
    → total_balance (buy_now auction_id buyer_id now w).1.db.wallets ≡ total_balance w.db.wallets
buy_now-total_any auction_id buyer_id now w = go (buy_now auction_id buyer_id now w) refl
  where
    go :
        (x : Result Auction × World)
        → buy_now auction_id buyer_id now w ≡ x
        → total_balance x.1.db.wallets ≡ total_balance w.db.wallets
    go (ok a, w') done = buy_now-total auction_id buyer_id now w w' done
    go (err e, w') failed = rw (buy_now_refused auction_id buyer_id now w w' e failed) refl

perform-total :
    (o : Operation) (w : World)
    → total_balance (perform o w).db.wallets ≡ total_balance w.db.wallets
perform-total (bid auction_id bidder_id amount now auto) w =
    place_bid-total auction_id bidder_id amount now auto w
perform-total (drop auction_id step now watchers) w =
    drop_price-total auction_id step now watchers w
perform-total (ending auction_id now watchers) w = end_auction-total auction_id now watchers w
perform-total (confirmation auction_id winner_id) w = confirm-total auction_id winner_id w
perform-total (purchase auction_id buyer_id now) w = buy_now-total_any auction_id buyer_id now w

-- Bids of any kind, price drops, endings of auctions, confirmations and purchases, in whatever order
-- they come and whether they succeed or fail, leave the sum of all balances as it was.
pub perform_all-total :
    (os : List Operation) (w : World)
    → total_balance (perform_all os w).db.wallets ≡ total_balance w.db.wallets
perform_all-total [] w = refl
perform_all-total (o ∷ os) w = perform_all-total os (perform o w) ∙ perform-total o w
