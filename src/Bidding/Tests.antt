-- ===== src/Bidding/Tests.antt =====
-- Runs of `placeBid`, and the theorems at them.
use auctionhaus.Prelude.{ℕ, ◌≡◌, refl, false, ◌↔◌, [], ◌∷◌, arith, pos, ◌+ℤ◌, ◌-ℤ◌, neg}
use auctionhaus.Schema.{Bid}
use auctionhaus.Store.{
  find_wallet, find_auction, find_winning, find_settlement, adjust, set_status, adjust_wallet,
  set_bid_status, log_transaction, create_bid, create_settlement, update_auction,
}
use auctionhaus.Escrow.{settle_within_tx, settle_fresh, is_settled, move_money}
use auctionhaus.Tx.{
  World, Result, ok, err, below_minimum, wallet_row, auction_row, lock_auction, wallet_or,
}
use auctionhaus.Bidding.{
  place_bid, accept_bid, validate, check_amount, lock_wallets, check_wallet, release_previous,
  release_bid, hold_bid, is_sniping, after_bid, settle_dutch,
}
use auctionhaus.Bidding.Wallets.{IsSolvent, accept_bid-IsSolvent}
use auctionhaus.Bidding.Placed.{place_bid-excess, accept_bid_iff}
use auctionhaus.Store.Wallets.{held_of, balance_of}
use auctionhaus.Bidding.Effect.{Passed}
use auctionhaus.Store.Holds.{excess}
use auctionhaus.Scenario.{seller, alice, bob, english_auction, opened, market}

-- Everything that a run of `placeBid` computes with.
run : ℕ → ℕ → ℕ → World → Result Bid × World
unfolding place_bid lock_auction accept_bid validate check_amount lock_wallets check_wallet
    release_previous release_bid hold_bid is_sniping after_bid settle_dutch wallet_or
    settle_within_tx settle_fresh is_settled move_money find_wallet find_auction find_winning
    find_settlement adjust set_status adjust_wallet set_bid_status log_transaction create_bid
    create_settlement update_auction ◌+ℤ◌ ◌-ℤ◌ neg
run auction_id bidder amount w = place_bid auction_id bidder amount false 10 w

-- The auction's row is locked first, then the two wallets in ascending order.
outbid_locks :
    (run 10 bob 1100 opened).1.locks ≡ wallet_row bob ∷ wallet_row alice ∷ auction_row 10 ∷ []
unfolding run
outbid_locks = refl

outbid_hold : held_of alice (run 10 bob 1100 opened).1.db.wallets ≡ pos 0
unfolding run held_of
outbid_hold = refl

too_low : (run 10 bob 1099 opened).0 ≡ err below_minimum
unfolding run
too_low = refl

dutch_paid : balance_of seller (run 11 bob 1000 opened).1.db.wallets ≡ pos 1000
unfolding run balance_of
dutch_paid = refl

place_bid-excess_example : excess alice (run 10 bob 1100 opened).1.db ≡ excess alice market
unfolding run
place_bid-excess_example =
    place_bid-excess alice 10 bob 1100 10 false opened (run 10 bob 1100 opened).1 english_auction
      refl (omega arith) (λ kind. cc) refl

accept_bid_iff_example :
    Passed english_auction bob 1100 10 market
    ↔ ((b : Bid) × ((accept_bid english_auction bob 1100 false 10 opened).0 ≡ ok b))
unfolding find_wallet find_winning
accept_bid_iff_example =
    accept_bid_iff english_auction bob 1100 10 false opened refl (λ p e. ground arith)

run_accept : ℕ → ℕ → World → Result Bid × World
unfolding run
run_accept bidder amount w = accept_bid english_auction bidder amount false 10 w

accept_bid-IsSolvent_example : IsSolvent bob (run_accept bob 30000 opened).1.db.wallets
unfolding run_accept balance_of held_of
accept_bid-IsSolvent_example =
    accept_bid-IsSolvent bob english_auction bob 30000 10 false opened
      (run_accept bob 30000 opened).1 refl (omega arith) refl
