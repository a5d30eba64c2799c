-- ===== src/Bidding/Placed.antt =====
-- `placeBid` as a whole: when it succeeds, what a failure leaves, and the hold on every wallet.
use auctionhaus.Prelude.{
  ℕ, ◌≡◌, ◌≢◌, ◌∙◌, ap, Bool, Bool-cases, Option-cases, ◌↔◌, inl, inr, true, false, none, some, [],
  ◌∷◌, arith,
}
use auctionhaus.Schema.{Auction, Bid, is_dutch}
use auctionhaus.Store.{find_auction, find_settlement, find_wallet}
use auctionhaus.Store.Bids.{IdsBelow}
use auctionhaus.Store.Holds.{excess}
use auctionhaus.Escrow.Holds.{NoOtherWon}
use auctionhaus.Tx.{World, Error, ok, err, auction_row, wallet_or, lock_auction}
use auctionhaus.Bidding.{
  check_amount, validate, lock_wallets, check_wallet, release_previous, new_bid, accept_bid,
  place_bid,
}
use auctionhaus.Bidding.Effect.{previous, released, Passed, accept_bid-Passed, has_wallet-give_back}
use auctionhaus.Store.Wallets.{balance_of, held_of}
use auctionhaus.Bidding.Holds.{accept_bid-excess}
use auctionhaus.Bidding.Dutch.{accept_bid-sold_excess}

-- The state in which the auction's row has been locked.
abbrev pub locked : ℕ → World → World
locked auction_id w = record w { locks = auction_row auction_id ∷ [] }

-- A bid that is placed was accepted on the row that was read.
pub place_bid-accepts :
    (auction_id bidder_id amount now : ℕ) (auto : Bool) (w w' : World) (a : Auction) {b : Bid}
    → find_auction auction_id w.db.auctions ≡ some a
    → place_bid auction_id bidder_id amount auto now w ≡ (ok b, w')
    → (v : World) × (accept_bid a bidder_id amount auto now (locked auction_id w) ≡ (ok b, v))
      × (w'.db ≡ v.db)
unfolding place_bid lock_auction
place_bid-accepts auction_id bidder_id amount now auto w w' a e h =
    ((accept_bid a bidder_id amount auto now (locked auction_id w)).1, ground arith, ground arith)

-- A bid that is refused, for whatever reason, leaves the tables as they were.
pub place_bid_refused :
    (auction_id bidder_id amount now : ℕ) (auto : Bool) (w w' : World) {e : Error}
    → place_bid auction_id bidder_id amount auto now w ≡ (err e, w')
    → w'.db ≡ w.db
unfolding place_bid
place_bid_refused auction_id bidder_id amount now auto w w' h = ground arith

accept_bid_completes :
    (a : Auction) (bidder_id amount now : ℕ) (auto : Bool) (w : World)
    → is_dutch a.kind ≡ false
    → ((p : Bid) → previous a w.db ≡ some p → find_wallet p.bidder_id w.db.wallets ≢ none)
    → Passed a bidder_id amount now w.db
    → (accept_bid a bidder_id amount auto now w).0
      ≡ ok (new_bid a.id bidder_id amount auto now (released a w.db))
unfolding accept_bid validate check_amount lock_wallets check_wallet release_previous wallet_or
    balance_of held_of
accept_bid_completes a bidder_id amount now auto w kind has p =
    elim (Option-cases (previous a w.db)) [
      | inl e ↦ ground arith
      | inr (b, e) ↦
          ground (arith, has b e, has_wallet-give_back bidder_id (some b) w.db p.has_wallet)
    ]

-- An English or sealed bid is accepted exactly when it passes: the auction is live and not the
-- bidder's own, the time is not over, the amount fits and the free balance covers it. (The bidder
-- whose hold is given back must have a wallet.)
pub accept_bid_iff :
    (a : Auction) (bidder_id amount now : ℕ) (auto : Bool) (w : World)
    → is_dutch a.kind ≡ false
    → ((p : Bid) → previous a w.db ≡ some p → find_wallet p.bidder_id w.db.wallets ≢ none)
    → Passed a bidder_id amount now w.db
      ↔ ((b : Bid) × ((accept_bid a bidder_id amount auto now w).0 ≡ ok b))
accept_bid_iff a bidder_id amount now auto w kind has = (
  (λ p. (_, accept_bid_completes a bidder_id amount now auto w kind has p)),
  (λ (b, e).
      accept_bid-Passed a bidder_id amount now auto w (accept_bid a bidder_id amount auto now w).1
        {b = b} (ground arith)),
)

-- A bid that is placed changes the hold on each wallet by exactly what it changes in the bids that
-- the hold is for, where bid ids are below the next fresh one and, for a Dutch auction, the auction
-- was not settled and had no WON bid before.
pub place_bid-excess :
    (uid auction_id bidder_id amount now : ℕ) (auto : Bool) (w w' : World) (a : Auction) {b : Bid}
    → find_auction auction_id w.db.auctions ≡ some a
    → IdsBelow w.db.next_id w.db.bids
    → (is_dutch a.kind ≡ true
        → (find_settlement a.id w.db.settlements ≡ none) × NoOtherWon a.id w.db.next_id w.db.bids)
    → place_bid auction_id bidder_id amount auto now w ≡ (ok b, w')
    → excess uid w'.db ≡ excess uid w.db
place_bid-excess uid auction_id bidder_id amount now auto w w' a e ids open_ h =
    let (v, took, tables) = place_bid-accepts auction_id bidder_id amount now auto w w' a e h in
    let s : World = locked auction_id w in
    ap (excess uid) tables ∙ elim (Bool-cases (is_dutch a.kind)) [
      | inl dutch ↦
          accept_bid-sold_excess uid a bidder_id amount now auto s v dutch (open_ dutch).0
            (open_ dutch).1 ids took
      | inr other ↦ accept_bid-excess uid a bidder_id amount now auto s v ids other took
    ]
