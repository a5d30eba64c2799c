-- ===== src/Schedule/Tests.antt =====
-- A price drop that an automatic bid takes, and the theorem at it.
use auctionhaus.Prelude.{
  ℕ, ◌≡◌, refl, true, false, some, List, arith, [], ◌∷◌, pos, ◌+ℤ◌, ◌-ℤ◌, neg, keep, find_first,
  update_first,
}
use auctionhaus.Schema.{Auction, AuctionStatus, AutoBid, is_active}
use auctionhaus.Schedule.Ends.{drop_all, drop_all-ends}
use auctionhaus.Store.{
  find_wallet, find_auction, find_winning, find_settlement, adjust, set_status, adjust_wallet,
  set_bid_status, log_transaction, create_bid, create_settlement, update_auction,
}
use auctionhaus.Store.Wallets.{balance_of}
use auctionhaus.Escrow.{settle_within_tx, settle_fresh, is_settled, move_money}
use auctionhaus.Tx.{World, lock_auction, wallet_or}
use auctionhaus.Bidding.{
  place_bid, accept_bid, validate, check_amount, lock_wallets, check_wallet, release_previous,
  release_bid, hold_bid, is_sniping, after_bid, settle_dutch,
}
use auctionhaus.Ladder.{rank, insert_ranked}
use auctionhaus.Schedule.{try_accept, offer, drop_price}
use auctionhaus.Scenario.{seller, bob, dutch_auction, market, opened}

-- Bob takes the Dutch auction at 1250 or less; the price is 1300 and drops by 50.
abbrev waiting : AutoBid
waiting = record {
  id = 30;
  auction_id = 11;
  bidder_id = bob;
  max_amount = 1250;
  current_bid = 0;
  is_active = true;
  created_at = 1;
}

abbrev falling : World
falling = record opened {
  db = record market {
    auctions = record dutch_auction { current_price = 1300 } ∷ [];
    auto_bids = waiting ∷ [];
    next_id = 31;
  };
}

run_drop : ℕ → World → World
unfolding find_wallet find_auction find_winning find_settlement adjust set_status adjust_wallet
    set_bid_status log_transaction create_bid create_settlement update_auction settle_within_tx
    settle_fresh is_settled move_money lock_auction wallet_or place_bid accept_bid validate
    check_amount lock_wallets check_wallet release_previous release_bid hold_bid is_sniping
    after_bid settle_dutch rank insert_ranked try_accept offer drop_price keep find_first
    update_first ◌+ℤ◌ ◌-ℤ◌ neg
run_drop step w = (drop_price 11 step [] 10 w).1

taken : balance_of seller (run_drop 50 falling).db.wallets ≡ pos 1250
unfolding run_drop balance_of
taken = refl

-- Thirteen drops by 100, of which Bob takes the first.
abbrev times : List (ℕ × List ℕ)
times =
    (10, [])
    ∷ (20, [])
    ∷ (30, [])
    ∷ (40, [])
    ∷ (50, [])
    ∷ (60, [])
    ∷ (70, [])
    ∷ (80, [])
    ∷ (90, [])
    ∷ (100, [])
    ∷ (110, [])
    ∷ (120, [])
    ∷ (130, [])
    ∷ []

run_all : World → World
unfolding find_wallet find_auction find_winning find_settlement adjust set_status adjust_wallet
    set_bid_status log_transaction create_bid create_settlement update_auction settle_within_tx
    settle_fresh is_settled move_money lock_auction wallet_or place_bid accept_bid validate
    check_amount lock_wallets check_wallet release_previous release_bid hold_bid is_sniping
    after_bid settle_dutch rank insert_ranked try_accept offer drop_price keep find_first
    update_first ◌+ℤ◌ ◌-ℤ◌ neg drop_all
run_all w = drop_all 11 100 times w

abbrev taken_row : Auction
taken_row = record dutch_auction {
  current_price = 1200;
  status = AuctionStatus.ended;
  winner_id = some bob;
  winner_bid_id = some 31;
  actual_end_time = some 10;
}

drop_all-ends_example : is_active taken_row.status ≡ false
unfolding run_all
drop_all-ends_example =
    drop_all-ends 11 100 times falling (record dutch_auction { current_price = 1300 }) taken_row
      refl refl (omega arith) (omega arith) refl
