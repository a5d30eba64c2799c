-- ===== src/Conservation/Ledger.antt =====
-- The rows of type PAYMENT: the escrow alone writes them, two at a time, one for each side.
use auctionhaus.Prelude.{
  ℕ, ◌≡◌, refl, ◌∙◌, Bool, true, false, Option, List, [], ◌∷◌, ℤ, sum_of, arith, int_laws,
}
use auctionhaus.Schema.{TransactionType, Auction, Bid, AutoBid, is_payment}
use auctionhaus.Store.{
  Db, adjust_wallet, log_transaction, create_settlement, create_bid, set_bid_status, update_auction,
}
use auctionhaus.Escrow.{Params, move_money, settle_within_tx, settle_fresh, settlement_row}
use auctionhaus.Tx.{World, wallet_or, lock_auction}
use auctionhaus.Bidding.{
  release_bid, release_previous, hold_bid, settle_dutch, accept_bid, place_bid,
}
use auctionhaus.Bidding.Money.{db-validate, db-lock_wallets, db-check_wallet}
use auctionhaus.Closing.{
  Ending, refund_loser, refund_losers, mark_bid, refund_sealed, settle_winner, finish, determine,
  end_auction,
}
use auctionhaus.Closing.Once.{db-notify_all}
use auctionhaus.Ladder.{update_auto_bid}
use auctionhaus.Schedule.{try_accept, offer, drop_price}
use auctionhaus.Payment.{pay, confirm_body, confirm_winner_payment}
use auctionhaus.AuctionService.{
  buy_body, buy_now, refund_user, refund_all, cancel_body, cancel_auction,
}
use auctionhaus.WalletService.{deposit, withdraw, withdraw_body}
use auctionhaus.Accounts.Dashboard.{total_revenue}

abbrev pub revenue : Db → ℤ
revenue db = total_revenue db.transactions

-- A row of another type adds nothing.
revenue-log :
    (uid : ℕ) (kind : TransactionType) (amount : ℤ) (reference : Option ℕ) (db : Db)
    → is_payment kind ≡ false
    → revenue (log_transaction uid kind amount reference db) ≡ revenue db
unfolding total_revenue log_transaction sum_of
revenue-log uid kind amount reference db other = grind (int_laws)

-- The debit of the one side is the credit of the other.
revenue-move_money : (p : Params) (db : Db) → revenue (move_money p db) ≡ revenue db
unfolding total_revenue move_money log_transaction adjust_wallet sum_of
revenue-move_money p db = omega (int_laws)

revenue-settle : (p : Params) (w : World) → revenue (settle_within_tx p w).1.db ≡ revenue w.db
unfolding settle_within_tx settle_fresh create_settlement wallet_or
revenue-settle p w =
    ground (arith, revenue-move_money p (create_settlement (settlement_row p) w.db))

revenue-release_bid : (b : Bid) (db : Db) → revenue (release_bid b db) ≡ revenue db
unfolding release_bid adjust_wallet set_bid_status
revenue-release_bid b db = grind (arith, revenue-log)

revenue-hold_bid : (b : Bid) (db : Db) → revenue (hold_bid b db) ≡ revenue db
unfolding hold_bid adjust_wallet create_bid
revenue-hold_bid b db = grind (arith, revenue-log)

revenue-settle_dutch :
    (a : Auction) (b : Bid) (w : World) → revenue (settle_dutch a b w).1.db ≡ revenue w.db
unfolding settle_dutch set_bid_status
revenue-settle_dutch a b w = grind (arith, revenue-settle)

revenue-release_previous :
    (a : Auction) (bidder_id : ℕ) (w : World)
    → revenue (release_previous a bidder_id w).1.db ≡ revenue w.db
unfolding release_previous wallet_or
revenue-release_previous a bidder_id w = grind (arith, revenue-release_bid)

revenue-accept_bid :
    (a : Auction) (bidder_id amount now : ℕ) (auto : Bool) (w : World)
    → revenue (accept_bid a bidder_id amount auto now w).1.db ≡ revenue w.db
unfolding accept_bid update_auction wallet_or
revenue-accept_bid a bidder_id amount now auto w = grind (
  arith, db-validate, db-lock_wallets, db-check_wallet, revenue-release_previous, revenue-hold_bid,
  revenue-settle_dutch,
)

pub revenue-place_bid :
    (auction_id bidder_id amount now : ℕ) (auto : Bool) (w : World)
    → revenue (place_bid auction_id bidder_id amount auto now w).1.db ≡ revenue w.db
unfolding place_bid lock_auction
revenue-place_bid auction_id bidder_id amount now auto w = grind (arith, revenue-accept_bid)

revenue-refund_loser :
    (id now : ℕ) (b : Bid) (db : Db) → revenue (refund_loser id now b db) ≡ revenue db
unfolding refund_loser mark_bid adjust_wallet
revenue-refund_loser id now b db = grind (arith, revenue-log)

revenue-refund_losers :
    (id now : ℕ) (bs : List Bid) (db : Db) → revenue (refund_losers id now bs db) ≡ revenue db
unfolding refund_losers
revenue-refund_losers id now [] db = refl
revenue-refund_losers id now (b ∷ bs) db =
    revenue-refund_losers id now bs (refund_loser id now b db) ∙ revenue-refund_loser id now b db

revenue-refund_sealed :
    (id now : ℕ) (w : World) → revenue (refund_sealed id now w).1.db ≡ revenue w.db
unfolding refund_sealed mark_bid
revenue-refund_sealed id now w = grind (arith, revenue-refund_losers)

revenue-settle_winner :
    (a : Auction) (b : Bid) (w : World) → revenue (settle_winner a b w).1.db ≡ revenue w.db
unfolding settle_winner set_bid_status
revenue-settle_winner a b w = grind (arith, revenue-settle)

revenue-finish :
    (e : Ending) (watchers : List ℕ) (now : ℕ) (w : World)
    → revenue (finish e watchers now w).1.db ≡ revenue w.db
unfolding finish
revenue-finish e watchers now w =
    grind (arith, revenue-refund_sealed, revenue-settle_winner, db-notify_all)

pub revenue-end_auction :
    (auction_id now : ℕ) (watchers : List ℕ) (w : World)
    → revenue (end_auction auction_id watchers now w).1.db ≡ revenue w.db
unfolding end_auction determine update_auction
revenue-end_auction auction_id now watchers w = grind (arith, revenue-finish)

revenue-try_accept :
    (auction_id price now : ℕ) (abs : List AutoBid) (w : World)
    → revenue (try_accept auction_id price now abs w).1.db ≡ revenue w.db
unfolding try_accept
revenue-try_accept auction_id price now [] w = refl
revenue-try_accept auction_id price now (ab ∷ abs) w =
    let w' = (place_bid auction_id ab.bidder_id price true now w).1 in
    let next : World = record w' {
      db = update_auto_bid ab.id (λ x. record x { is_active = false }) w'.db;
    } in
    ground (
      arith,
      revenue-place_bid auction_id ab.bidder_id price now true w,
      revenue-try_accept auction_id price now abs next,
    )

revenue-offer :
    (auction_id price now : ℕ) (w : World)
    → revenue (offer auction_id price now w).1.db ≡ revenue w.db
unfolding offer update_auction
revenue-offer auction_id price now w = grind (arith, revenue-try_accept)

pub revenue-drop_price :
    (auction_id step now : ℕ) (watchers : List ℕ) (w : World)
    → revenue (drop_price auction_id step watchers now w).1.db ≡ revenue w.db
unfolding drop_price
revenue-drop_price auction_id step now watchers w =
    grind (arith, revenue-offer, revenue-end_auction)

pub revenue-confirm :
    (auction_id winner_id : ℕ) (w : World)
    → revenue (confirm_winner_payment auction_id winner_id w).1.db ≡ revenue w.db
unfolding confirm_winner_payment confirm_body lock_auction pay set_bid_status
revenue-confirm auction_id winner_id w = grind (arith, revenue-settle)

pub revenue-buy_now :
    (auction_id buyer_id now : ℕ) (w : World)
    → revenue (buy_now auction_id buyer_id now w).1.db ≡ revenue w.db
unfolding buy_now buy_body update_auction lock_auction
revenue-buy_now auction_id buyer_id now w = grind (arith, revenue-settle)

revenue-refund_all :
    (id : ℕ) (tops : List Bid) (uids : List ℕ) (db : Db)
    → revenue (refund_all id tops uids db) ≡ revenue db
unfolding refund_all refund_user adjust_wallet
revenue-refund_all id tops [] db = refl
revenue-refund_all id tops (uid ∷ uids) db =
    grind (arith, revenue-refund_all id tops uids (refund_user id tops uid db), revenue-log)

pub revenue-cancel_auction :
    (auction_id user_id : ℕ) (is_admin : Bool) (w : World)
    → revenue (cancel_auction auction_id user_id is_admin w).1.db ≡ revenue w.db
unfolding cancel_auction cancel_body lock_auction update_auction
revenue-cancel_auction auction_id user_id is_admin w = grind (arith, revenue-refund_all)

pub revenue-deposit :
    (uid : ℕ) (amount : ℤ) (w : World) → revenue (deposit uid amount w).1.db ≡ revenue w.db
unfolding deposit wallet_or adjust_wallet
revenue-deposit uid amount w = grind (arith, revenue-log)

pub revenue-withdraw :
    (uid : ℕ) (amount : ℤ) (w : World) → revenue (withdraw uid amount w).1.db ≡ revenue w.db
unfolding withdraw withdraw_body wallet_or adjust_wallet
revenue-withdraw uid amount w = grind (arith, revenue-log)
