-- ===== src/BidController/Laws.antt =====
-- The checks before the queue are those of the service, and a sealed bid is not sent to the room.
use auctionhaus.Prelude.{
  ℕ, ◌≡◌, Bool, true, false, ◌||◌, if◌then◌else◌, some, Option, none, List, [], ◌∷◌, arith,
}
use auctionhaus.Schema.{Auction, Bid}
use auctionhaus.Store.{find_auction}
use auctionhaus.Tx.{
  World, Event, bid_new, auction_closed, price_drop, bid_ladder, lock_auction, ◌>>=◌, wallet_or,
}
use auctionhaus.BidList.{is_sealed_live}
use auctionhaus.Escrow.{Params, settle_within_tx, settle_fresh}
use auctionhaus.Bidding.{
  check_amount, validate, lock_wallets, check_wallet, release_previous, settle_dutch, accept_bid,
  place_bid,
}
use auctionhaus.BidController.{
  hides, announcement, place_bid_request, check_queued_amount, check_queued,
}

-- The checks before a bid is queued let a bid pass, or refuse it with an error, exactly as the first
-- checks of `placeBid` do in the same state.
pub check_queued-validate :
    (auction_id bidder_id amount now : ℕ) (w : World)
    → check_queued auction_id bidder_id amount now w.db
      ≡ ((lock_auction auction_id >>= λ a. validate a bidder_id amount now) w).0
unfolding check_queued check_queued_amount lock_auction validate check_amount
check_queued-validate auction_id bidder_id amount now w = ground arith

abbrev is_given : Option ℕ → Bool
is_given none = false
is_given (some _) = true

-- An event for an auction's room that carries an amount, a price or a bidder. (A notification goes to
-- one user, a job to a queue.)
abbrev tells : Event → Bool
tells (bid_new _ _ amount bidder_id _) = is_given amount || is_given bidder_id
tells (auction_closed _ winner_id amount _) = is_given winner_id || is_given amount
tells (price_drop _ _) = true
tells (bid_ladder _ _ _ _) = true
tells _ = false

-- The events that tell an auction's room an amount, a price or a bidder.
unfoldable pub bids_shown : List Event → List Event
bids_shown [] = []
bids_shown (e ∷ es) = let rest = bids_shown es in if tells e then e ∷ rest else rest

settle-bids_shown :
    (p : Params) (w : World) → bids_shown (settle_within_tx p w).1.outbox ≡ bids_shown w.outbox
unfolding settle_within_tx settle_fresh bids_shown wallet_or
settle-bids_shown p w = ground arith

settle_dutch-bids_shown :
    (a : Auction) (b : Bid) (w : World)
    → bids_shown (settle_dutch a b w).1.outbox ≡ bids_shown w.outbox
unfolding settle_dutch
settle_dutch-bids_shown a b w = grind (arith, settle-bids_shown)

validate-bids_shown :
    (a : Auction) (bidder_id amount now : ℕ) (w : World)
    → bids_shown (validate a bidder_id amount now w).1.outbox ≡ bids_shown w.outbox
unfolding validate check_amount
validate-bids_shown a bidder_id amount now w = ground arith

lock_wallets-bids_shown :
    (a : Auction) (bidder_id : ℕ) (w : World)
    → bids_shown (lock_wallets a bidder_id w).1.outbox ≡ bids_shown w.outbox
unfolding lock_wallets
lock_wallets-bids_shown a bidder_id w = ground arith

check_wallet-bids_shown :
    (bidder_id amount : ℕ) (w : World)
    → bids_shown (check_wallet bidder_id amount w).1.outbox ≡ bids_shown w.outbox
unfolding check_wallet wallet_or
check_wallet-bids_shown bidder_id amount w = ground arith

release_previous-bids_shown :
    (a : Auction) (bidder_id : ℕ) (w : World)
    → bids_shown (release_previous a bidder_id w).1.outbox ≡ bids_shown w.outbox
unfolding release_previous wallet_or bids_shown
release_previous-bids_shown a bidder_id w = ground arith

accept_bid-bids_shown :
    (a : Auction) (bidder_id amount now : ℕ) (auto : Bool) (w : World)
    → bids_shown (accept_bid a bidder_id amount auto now w).1.outbox ≡ bids_shown w.outbox
unfolding accept_bid wallet_or bids_shown
accept_bid-bids_shown a bidder_id amount now auto w = grind (
  arith, validate-bids_shown, lock_wallets-bids_shown, check_wallet-bids_shown,
  release_previous-bids_shown, settle_dutch-bids_shown,
)

place_bid-bids_shown :
    (auction_id bidder_id amount now : ℕ) (auto : Bool) (w : World)
    → bids_shown (place_bid auction_id bidder_id amount auto now w).1.outbox ≡ bids_shown w.outbox
unfolding place_bid lock_auction bids_shown
place_bid-bids_shown auction_id bidder_id amount now auto w = grind (arith, accept_bid-bids_shown)

-- If the auction that the controller reads after the bid is a live sealed one, then the request sent no
-- auction's room an event that tells an amount, a price or a bidder: no new bid with an amount or a
-- bidder, no close with a winner or an amount, no price drop and no ladder, whether the bid was placed
-- or refused.
pub place_bid_request-redacted :
    (auction_id bidder_id amount now : ℕ) (a : Auction) (w : World)
    → find_auction auction_id (place_bid_request auction_id bidder_id amount now w).1.db.auctions
      ≡ some a
    → is_sealed_live a ≡ true
    → bids_shown (place_bid_request auction_id bidder_id amount now w).1.outbox
      ≡ bids_shown w.outbox
unfolding place_bid_request announcement hides bids_shown
place_bid_request-redacted auction_id bidder_id amount now a w found live =
    grind (arith, place_bid-bids_shown)
