-- ===== src/BidController/Tests.antt =====
-- Requests on the concrete tables.
use auctionhaus.Prelude.{ℕ, ◌≡◌, refl, true, none, [], ◌∷◌, ◌+ℤ◌, ◌-ℤ◌, neg}
use auctionhaus.Schema.{Bid}
use auctionhaus.Store.{
  find_wallet, find_auction, find_winning, find_settlement, adjust, set_status, adjust_wallet,
  set_bid_status, log_transaction, create_bid, create_settlement, update_auction,
}
use auctionhaus.Escrow.{settle_within_tx, settle_fresh, is_settled, move_money}
use auctionhaus.Tx.{World, Result, bid_new, ladder_job, ◌>>=◌, lock_auction, wallet_or}
use auctionhaus.Bidding.{
  place_bid, accept_bid, validate, check_amount, lock_wallets, check_wallet, release_previous,
  release_bid, hold_bid, is_sniping, after_bid, settle_dutch,
}
use auctionhaus.BidController.{place_bid_request, announcement, hides, check_queued}
use auctionhaus.BidController.Laws.{check_queued-validate, bids_shown, place_bid_request-redacted}
use auctionhaus.Scenario.{bob, opened, market, sealed_auction}

run : ℕ → ℕ → ℕ → World → Result Bid × World
unfolding place_bid_request announcement hides place_bid lock_auction accept_bid validate
    check_amount lock_wallets check_wallet release_previous release_bid hold_bid is_sniping
    after_bid settle_dutch wallet_or settle_within_tx settle_fresh is_settled move_money find_wallet
    find_auction find_winning find_settlement adjust set_status adjust_wallet set_bid_status
    log_transaction create_bid create_settlement update_auction ◌+ℤ◌ ◌-ℤ◌ neg
run auction_id bidder_id amount w = place_bid_request auction_id bidder_id amount 10 w

sealed_sent :
    (run 12 bob 1500 opened).1.outbox ≡ bid_new 12 21 none none true ∷ ladder_job 12 bob ∷ []
unfolding run
sealed_sent = refl

place_bid_request-redacted_example :
    bids_shown (run 12 bob 1500 opened).1.outbox ≡ bids_shown opened.outbox
unfolding run find_auction
place_bid_request-redacted_example =
    place_bid_request-redacted 12 bob 1500 10 sealed_auction opened refl refl

check_queued-validate_example :
    check_queued 12 bob 900 10 market ≡ ((lock_auction 12 >>= λ a. validate a bob 900 10) opened).0
check_queued-validate_example = check_queued-validate 12 bob 900 10 opened
