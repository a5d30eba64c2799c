-- ===== src/Conservation/Revenue.antt =====
-- The dashboard's `totalRevenue`, after any run of the services that touch money.
use auctionhaus.Prelude.{ℕ, ◌≡◌, refl, ◌∙◌, ap, sum_of, Bool, List, [], ◌∷◌, ℤ, pos}
use auctionhaus.Tx.{World}
use auctionhaus.Conservation.{Operation, perform}
use auctionhaus.AuctionService.{cancel_auction}
use auctionhaus.WalletService.{deposit, withdraw}
use auctionhaus.Accounts.{Site}
use auctionhaus.Accounts.Dashboard.{get_dashboard_stats, total_revenue, paid_amount}
use auctionhaus.Conservation.Ledger.{
  revenue, revenue-place_bid, revenue-drop_price, revenue-end_auction, revenue-confirm,
  revenue-buy_now, revenue-cancel_auction, revenue-deposit, revenue-withdraw,
}

-- Also the calls that change the sum of the balances.
pub data Movement : Type 0 where
  trade : Operation → Movement
  payin : (uid : ℕ) (amount : ℤ) → Movement
  payout : (uid : ℕ) (amount : ℤ) → Movement
  cancellation : (auction_id user_id : ℕ) (is_admin : Bool) → Movement

abbrev pub move : Movement → World → World
move (trade o) w = perform o w
move (payin uid amount) w = (deposit uid amount w).1
move (payout uid amount) w = (withdraw uid amount w).1
move (cancellation auction_id user_id is_admin) w = (cancel_auction auction_id user_id is_admin w).1

abbrev pub move_all : List Movement → World → World
move_all [] w = w
move_all (m ∷ ms) w = move_all ms (move m w)

revenue-perform : (o : Operation) (w : World) → revenue (perform o w).db ≡ revenue w.db
revenue-perform (Operation.bid auction_id bidder_id amount now auto) w =
    revenue-place_bid auction_id bidder_id amount now auto w
revenue-perform (Operation.drop auction_id step now watchers) w =
    revenue-drop_price auction_id step now watchers w
revenue-perform (Operation.ending auction_id now watchers) w =
    revenue-end_auction auction_id now watchers w
revenue-perform (Operation.confirmation auction_id winner_id) w =
    revenue-confirm auction_id winner_id w
revenue-perform (Operation.purchase auction_id buyer_id now) w =
    revenue-buy_now auction_id buyer_id now w

revenue-move : (m : Movement) (w : World) → revenue (move m w).db ≡ revenue w.db
revenue-move (trade o) w = revenue-perform o w
revenue-move (payin uid amount) w = revenue-deposit uid amount w
revenue-move (payout uid amount) w = revenue-withdraw uid amount w
revenue-move (cancellation auction_id user_id is_admin) w =
    revenue-cancel_auction auction_id user_id is_admin w

revenue-move_all : (ms : List Movement) (w : World) → revenue (move_all ms w).db ≡ revenue w.db
revenue-move_all [] w = refl
revenue-move_all (m ∷ ms) w = revenue-move_all ms (move m w) ∙ revenue-move m w

-- On a platform whose ledger began empty, the `totalRevenue` of the dashboard is 0 after every run of
-- bids, price drops, endings, confirmations, purchases, deposits, withdrawals and cancellations, in
-- whatever order they come and however much was paid: the two PAYMENT rows of a sale cancel.
pub get_dashboard_stats-revenue :
    (ms : List Movement) (s : Site)
    → s.world.db.transactions ≡ []
    → (get_dashboard_stats (record s { world = move_all ms s.world })).revenue ≡ pos 0
unfolding get_dashboard_stats total_revenue sum_of
get_dashboard_stats-revenue ms s fresh = revenue-move_all ms s.world ∙ ap (sum_of paid_amount) fresh
