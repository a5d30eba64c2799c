-- ===== src/Schedule/Ends.antt =====
-- A falling price comes to an end.
use mathlib.Core.Option
use mathlib.Core.Path.{subst}
use native.Mathlib.Nat.{suc-mul}
use auctionhaus.Prelude.{
  ℕ, suc, ◌-◌, ◌*◌, ◌≤◌, ◌<◌, ◌≡◌, refl, sym, ap, ◌∙◌, Bool, true, false, not, ◌&&◌, ◌||◌, none,
  some, List, [], ◌∷◌, ltb, leb, ◌==◌, Option-cases, Bool-cases, find_first, inl, inr, ◌⊎◌, length,
  arith,
}
use auctionhaus.Schema.{Auction, AutoBid, Bid, is_active, is_dutch}
use auctionhaus.Store.{
  Db, find_auction, update_auction, set_bid_status, create_bid, adjust_wallet, log_transaction,
}
use auctionhaus.Tx.{World, Error, Result, ok, err, lock_auction, wallet_or}
use auctionhaus.Bidding.{
  check_amount, validate, lock_wallets, check_wallet, release_previous, hold_bid, after_bid,
  settle_dutch, accept_bid, place_bid,
}
use auctionhaus.Bidding.Effect.{accept_bid-Passed}
use auctionhaus.Bidding.Placed.{place_bid_refused, place_bid-accepts, locked}
use auctionhaus.Closing.{end_auction}
use auctionhaus.Closing.Once.{find_auction-update, auctions-settle, end_auction-ended}
use auctionhaus.Ladder.{update_auto_bid}
use auctionhaus.AutoBids.{below_reserve}
use auctionhaus.Schedule.{dropped, try_accept, offer, drop_price}

-- If the auction is live, it is a Dutch one, and its price is positive and at most `top`.
unfoldable pub below : ℕ → ℕ → Db → Bool
unfolding find_auction
below id top db = elim (find_auction id db.auctions) [
  | none ↦ true
  | some a ↦
      not (is_active a.status)
      || (is_dutch a.kind && ltb 0 a.current_price && leb a.current_price top)
]

accept_bid-auctions :
    (a : Auction) (bidder_id amount now : ℕ) (auto : Bool) (w w' : World) (b : Bid)
    → is_dutch a.kind ≡ true
    → accept_bid a bidder_id amount auto now w ≡ (ok b, w')
    → w'.db.auctions ≡ (update_auction a.id (after_bid b now) w.db).auctions
unfolding accept_bid validate check_amount lock_wallets check_wallet release_previous wallet_or
    settle_dutch hold_bid create_bid adjust_wallet log_transaction set_bid_status update_auction
accept_bid-auctions a bidder_id amount now auto w w' b kind h = grind (arith, auctions-settle)

after_bid-over :
    (b : Bid) (now : ℕ) (a : Auction)
    → is_dutch a.kind ≡ true
    → is_active (after_bid b now a).status ≡ false
unfolding after_bid
after_bid-over b now a kind = ground arith

id-after_bid : (b : Bid) (now : ℕ) (a : Auction) → (after_bid b now a).id ≡ a.id
unfolding after_bid
id-after_bid b now a = ground arith

find_auction-id :
    (id : ℕ) (as_ : List Auction) (a : Auction) → find_auction id as_ ≡ some a → a.id ≡ id
unfolding find_auction find_first
find_auction-id id [] a found = grind arith
find_auction-id id (x ∷ xs) a found = grind (arith, find_auction-id id xs a)

below-over :
    (id top : ℕ) (db : Db) (a : Auction)
    → find_auction id db.auctions ≡ some a
    → is_active a.status ≡ false
    → below id top db ≡ true
unfolding below
below-over id top db a found over = ground arith

ran :
    {A : Type 0} (x : Result A × World)
    → ((a : A) × (x ≡ (ok a, x.1))) ⊎ ((e : Error) × (x ≡ (err e, x.1)))
ran (ok a, w) = inl (a, refl)
ran (err e, w) = inr (e, refl)

-- A Dutch bid that is placed leaves no live auction.
place_bid-over :
    (id bidder_id amount now top : ℕ) (auto : Bool) (w w' : World) (a : Auction) (b : Bid)
    → find_auction id w.db.auctions ≡ some a
    → is_dutch a.kind ≡ true
    → place_bid id bidder_id amount auto now w ≡ (ok b, w')
    → below id top w'.db ≡ true
place_bid-over id bidder_id amount now top auto w w' a b found kind placed =
    let (v, taken, same) = place_bid-accepts id bidder_id amount now auto w w' a found placed in
    let rows = accept_bid-auctions a bidder_id amount now auto (locked id w) v b kind taken in
    let here = find_auction-id id w.db.auctions a found in
    let moved = find_auction-update id (after_bid b now) w.db (id-after_bid b now) in
    below-over id top w'.db (after_bid b now a)
      (ap (λ (db : Db). find_auction id db.auctions) same
        ∙ ap (find_auction id) rows
        ∙ ap (λ i. find_auction id (update_auction i (after_bid b now) w.db).auctions) here
        ∙ moved
        ∙ ap (Option.map (after_bid b now)) found)
      (after_bid-over b now a kind)

place_bid-below :
    (id bidder_id amount now top : ℕ) (auto : Bool) (w : World)
    → below id top w.db ≡ true
    → below id top (place_bid id bidder_id amount auto now w).1.db ≡ true
unfolding below place_bid lock_auction
place_bid-below id bidder_id amount now top auto w before =
    elim (ran (place_bid id bidder_id amount auto now w)) [
      | inr (e, failed) ↦ rw (place_bid_refused id bidder_id amount now auto w _ failed) before
      | inl (b, placed) ↦ elim (Option-cases (find_auction id w.db.auctions)) [
        | inl missing ↦ ground arith
        | inr (a, found) ↦
            let (v, taken, same) =
              place_bid-accepts id bidder_id amount now auto w _ a found placed in
            let passed = accept_bid-Passed a bidder_id amount now auto (locked id w) v taken in
            place_bid-over id bidder_id amount now top auto w _ a b found
              (grind (arith, passed.live)) placed
      ]
    ]

try_accept-below :
    (id price now top : ℕ) (abs : List AutoBid) (w : World)
    → below id top w.db ≡ true
    → below id top (try_accept id price now abs w).1.db ≡ true
unfolding try_accept below
try_accept-below id price now top [] w before = before
try_accept-below id price now top (ab ∷ abs) w before =
    go (try_accept-below id price now top abs failed placed)
      (place_bid id ab.bidder_id price true now w).0
  where
    placed : below id top (place_bid id ab.bidder_id price true now w).1.db ≡ true
    placed = place_bid-below id ab.bidder_id price now top true w before

    failed : World
    failed = record (place_bid id ab.bidder_id price true now w).1 {
      db =
          update_auto_bid ab.id (λ x. record x { is_active = false })
            (place_bid id ab.bidder_id price true now w).1.db;
    }

    go :
        below id top (try_accept id price now abs failed).1.db ≡ true
        → (r : Result Bid)
        → below id top
            (elim r as (λ _. Result Bool × World) [
              | ok _ ↦ (ok true, (place_bid id ab.bidder_id price true now w).1)
              | err _ ↦ try_accept id price now abs failed
            ]).1.db
          ≡ true
    go rest (ok b) = placed
    go rest (err e) = rest

offer-below :
    (id price now : ℕ) (w : World) (a : Auction)
    → find_auction id w.db.auctions ≡ some a
    → is_dutch a.kind ≡ true
    → 0 < price
    → below id price (offer id price now w).1.db ≡ true
unfolding offer below
offer-below id price now w a found kind positive =
    let priced : World = record w {
      db = update_auction id (λ x. record x { current_price = price }) w.db;
    } in
    let row = find_auction-update id (λ x. record x { current_price = price }) w.db (λ x. refl) in
    let start : below id price priced.db ≡ true = grind arith in
    grind (arith, try_accept-below id price now price)

below_mono :
    (id low high : ℕ) (db : Db) → low ≤ high → below id low db ≡ true → below id high db ≡ true
unfolding below
below_mono id low high db le h = grind arith

end_auction-below :
    (id top now : ℕ) (watchers : List ℕ) (w : World)
    → below id top (end_auction id watchers now w).1.db ≡ true
unfolding below
end_auction-below id top now watchers w =
    elim (Option-cases (find_auction id (end_auction id watchers now w).1.db.auctions)) [
      | inl missing ↦ ground arith
      | inr (a, found) ↦ let over = end_auction-ended id now watchers w a found in ground arith
    ]

drop_price-below :
    (id step top now : ℕ) (watchers : List ℕ) (w : World)
    → below id top w.db ≡ true
    → below id (top - step) (drop_price id step watchers now w).1.db ≡ true
unfolding drop_price below
drop_price-below id step top now watchers w before =
    elim (Option-cases (find_auction id w.db.auctions)) [
      | inl missing ↦ ground arith
      | inr (a, found) ↦ elim (Bool-cases (is_active a.status)) [
        | inr over ↦ ground arith
        | inl live ↦
            let kind : is_dutch a.kind ≡ true = ground arith in
            let fits : a.current_price ≤ top = ground arith in
            elim (Bool-cases
              (dropped a step == 0 || below_reserve (dropped a step) a.reserve_price)) [
                | inl out ↦
                    let same : drop_price id step watchers now w ≡ end_auction id watchers now w =
                      ground arith in
                    subst (λ x. below id (top - step) x.1.db ≡ true) (sym same)
                      (end_auction-below id (top - step) now watchers w)
                | inr goes ↦
                    let same : drop_price id step watchers now w ≡ offer id (dropped a step) now w =
                      ground arith in
                    subst (λ x. below id (top - step) x.1.db ≡ true) (sym same)
                      (below_mono id (dropped a step) (top - step)
                        (offer id (dropped a step) now w).1.db (omega (arith, fits))
                        (offer-below id (dropped a step) now w a found kind (ground arith)))
              ]
      ]
    ]

-- The state after a number of drops, each at its time and with those who watched then.
unfoldable pub drop_all : ℕ → ℕ → List (ℕ × List ℕ) → World → World
drop_all id step [] w = w
drop_all id step ((now, watchers) ∷ rest) w =
    drop_all id step rest (drop_price id step watchers now w).1

drop_all-below :
    (id step top : ℕ) (drops_ : List (ℕ × List ℕ)) (w : World)
    → below id top w.db ≡ true
    → below id (top - length drops_ * step) (drop_all id step drops_ w).db ≡ true
unfolding drop_all
drop_all-below id step top [] w before =
    let e : top - 0 * step ≡ top = omega arith in subst (λ t. below id t w.db ≡ true) (sym e) before
drop_all-below id step top ((now, watchers) ∷ rest) w before =
    let m = suc-mul (length rest) step in
    let e : top - suc (length rest) * step ≡ (top - step) - length rest * step = omega (arith, m) in
    subst (λ t. below id t (drop_all id step rest (drop_price id step watchers now w).1).db ≡ true)
      (sym e)
      (drop_all-below id step (top - step) rest (drop_price id step watchers now w).1
        (drop_price-below id step top now watchers w before))

-- A live Dutch auction with a positive price is no longer live after so many price drops that they
-- add up to its price, whatever automatic bids, reserve and watchers there are.
pub drop_all-ends :
    (id step : ℕ) (drops_ : List (ℕ × List ℕ)) (w : World) (a b : Auction)
    → find_auction id w.db.auctions ≡ some a
    → is_dutch a.kind ≡ true
    → 0 < a.current_price
    → a.current_price ≤ length drops_ * step
    → find_auction id (drop_all id step drops_ w).db.auctions ≡ some b
    → is_active b.status ≡ false
unfolding below
drop_all-ends id step drops_ w a b found kind positive enough last =
    let start : below id a.current_price w.db ≡ true = grind arith in
    let end_ = drop_all-below id step a.current_price drops_ w start in grind arith
