-- ===== src/Schedule/Money.antt =====
-- A price drop, with what it sets off, makes and loses no money.
use auctionhaus.Prelude.{ℕ, ◌≡◌, refl, List, [], ◌∷◌, arith, true, false}
use auctionhaus.Schema.{AutoBid}
use auctionhaus.Store.{update_auction}
use auctionhaus.Store.Wallets.{total_balance}
use auctionhaus.Tx.{World}
use auctionhaus.Bidding.{place_bid}
use auctionhaus.Bidding.Money.{place_bid-total}
use auctionhaus.Closing.Money.{end_auction-total}
use auctionhaus.Ladder.{update_auto_bid}
use auctionhaus.Schedule.{try_accept, offer, drop_price}

try_accept-total :
    (auction_id price now : ℕ) (abs : List AutoBid) (w : World)
    → total_balance (try_accept auction_id price now abs w).1.db.wallets
      ≡ total_balance w.db.wallets
unfolding try_accept
try_accept-total auction_id price now [] w = refl
try_accept-total auction_id price now (ab ∷ abs) w =
    let w' = (place_bid auction_id ab.bidder_id price true now w).1 in
    let next : World = record w' {
      db = update_auto_bid ab.id (λ x. record x { is_active = false }) w'.db;
    } in
    ground (
      arith,
      place_bid-total auction_id ab.bidder_id price now true w,
      try_accept-total auction_id price now abs next,
    )

offer-total :
    (auction_id price now : ℕ) (w : World)
    → total_balance (offer auction_id price now w).1.db.wallets ≡ total_balance w.db.wallets
unfolding offer update_auction
offer-total auction_id price now w = grind (arith, try_accept-total)

-- A price drop, whether the auction goes on, is sold to an automatic bid or ends, leaves the sum of
-- all balances as it was.
pub drop_price-total :
    (auction_id step now : ℕ) (watchers : List ℕ) (w : World)
    → total_balance (drop_price auction_id step watchers now w).1.db.wallets
      ≡ total_balance w.db.wallets
unfolding drop_price
drop_price-total auction_id step now watchers w = grind (arith, offer-total, end_auction-total)
