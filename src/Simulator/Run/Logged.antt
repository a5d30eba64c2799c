-- ===== src/Simulator/Run/Logged.antt =====
-- The log of a run and the table of bids.
use auctionhaus.Prelude.{
  ℕ, zero, suc, ◌+◌, ◌≡◌, ◌∙◌, ap, refl, Bool, false, some, List, [], ◌∷◌, ◌++◌, map, length,
  length-append, ◌==◌, arith, find_first, if◌then◌else◌, update_first, Bool-cases, Option-cases,
  inl, inr,
}
use auctionhaus.Schema.{Auction, Bid, BidStatus, is_ended}
use auctionhaus.Store.{
  Db, find_auction, set_status, set_bid_status, adjust_wallet, log_transaction, create_bid,
  update_auction, create_settlement,
}
use auctionhaus.Escrow.{Params, settle_within_tx, settle_fresh, move_money}
use auctionhaus.Tx.{World, Result, ok, err, wallet_or, lock_auction}
use auctionhaus.Bidding.{
  release_bid, release_previous, hold_bid, settle_dutch, accept_bid, place_bid,
}
use auctionhaus.Bidding.Placed.{place_bid_refused, place_bid-accepts, locked}
use auctionhaus.BidController.{place_bid_request}
use auctionhaus.Accounts.{Site}
use auctionhaus.Simulator.Run.{
  Participant, SimAuction, BidLogEntry, Chance, Simulation, get_auction_state, place_bid_call,
  take_turn, take_turns, visit, play_round, run_rounds, total_bids_of,
}
use auctionhaus.Simulator.Agents.{AuctionState, decide}
use auctionhaus.Bidding.Money.{db-validate, db-lock_wallets, db-check_wallet}

-- A bid without what later events change of it: its auction, its bidder and its amount.
abbrev pub offer_of : Bid → ℕ × ℕ × ℕ
offer_of b = (b.auction_id, b.bidder_id, b.amount)

unfoldable pub offers : Db → List (ℕ × ℕ × ℕ)
offers db = map offer_of db.bids

map-set_status :
    (id : ℕ) (s : BidStatus) (bs : List Bid) → map offer_of (set_status id s bs) ≡ map offer_of bs
unfolding set_status update_first
map-set_status id s [] = refl
map-set_status id s (b ∷ bs) = ground (arith, map-set_status id s bs)

offers-set_bid_status :
    (id : ℕ) (s : BidStatus) (db : Db) → offers (set_bid_status id s db) ≡ offers db
unfolding offers set_bid_status
offers-set_bid_status id s db = map-set_status id s db.bids

offers-release_bid : (b : Bid) (db : Db) → offers (release_bid b db) ≡ offers db
unfolding offers release_bid adjust_wallet log_transaction set_bid_status
offers-release_bid b db = map-set_status b.id BidStatus.outbid db.bids

offers-hold_bid : (b : Bid) (db : Db) → offers (hold_bid b db) ≡ offer_of b ∷ offers db
unfolding offers hold_bid create_bid adjust_wallet log_transaction
offers-hold_bid b db = refl

offers-settle : (p : Params) (w : World) → offers (settle_within_tx p w).1.db ≡ offers w.db
unfolding offers settle_within_tx settle_fresh create_settlement wallet_or move_money adjust_wallet
    log_transaction
offers-settle p w = ground arith

offers-settle_dutch :
    (a : Auction) (b : Bid) (w : World) → offers (settle_dutch a b w).1.db ≡ offers w.db
unfolding settle_dutch
offers-settle_dutch a b w = grind (arith, offers-settle, offers-set_bid_status)

offers-release_previous :
    (a : Auction) (bidder_id : ℕ) (w : World)
    → offers (release_previous a bidder_id w).1.db ≡ offers w.db
unfolding release_previous wallet_or
offers-release_previous a bidder_id w = grind (arith, offers-release_bid)

offers-update_auction :
    (id : ℕ) (f : Auction → Auction) (db : Db) → offers (update_auction id f db) ≡ offers db
unfolding offers update_auction
offers-update_auction id f db = refl

offers-accept_bid :
    (a : Auction) (bidder_id amount now : ℕ) (auto : Bool) (w w' : World) {b : Bid}
    → accept_bid a bidder_id amount auto now w ≡ (ok b, w')
    → offers w'.db ≡ (a.id, bidder_id, amount) ∷ offers w.db
unfolding accept_bid wallet_or
offers-accept_bid a bidder_id amount now auto w w' h = grind (
  arith, db-validate, db-lock_wallets, db-check_wallet, offers-release_previous, offers-hold_bid,
  offers-settle_dutch, offers-update_auction,
)

found-id :
    (id : ℕ) (as_ : List Auction) (a : Auction)
    → find_first (λ x. x.id == id) as_ ≡ some a
    → a.id ≡ id
unfolding find_first
found-id id [] a h = cc
found-id id (x ∷ xs) a h = ground (arith, found-id id xs a)

find_auction-id :
    (id : ℕ) (db : Db) (a : Auction) → find_auction id db.auctions ≡ some a → a.id ≡ id
unfolding find_auction
find_auction-id id db a h = found-id id db.auctions a h

offers-place_bid :
    (auction_id bidder_id amount now : ℕ) (auto : Bool) (w w' : World) {b : Bid}
    → place_bid auction_id bidder_id amount auto now w ≡ (ok b, w')
    → offers w'.db ≡ (auction_id, bidder_id, amount) ∷ offers w.db
unfolding place_bid lock_auction
offers-place_bid auction_id bidder_id amount now auto w w' h =
    elim (Option-cases (find_auction auction_id w.db.auctions)) [
      | inl missing ↦ ground arith
      | inr (a, e) ↦
          let (v, taken, same) =
            place_bid-accepts auction_id bidder_id amount now auto w w' a e h in
          ap offers same
          ∙ offers-accept_bid a bidder_id amount now auto (locked auction_id w) v taken
          ∙ ap (λ id. (id, bidder_id, amount) ∷ offers w.db) (find_auction-id auction_id w.db a e)
    ]

offers-place_bid_call :
    (auction_id user_id amount now : ℕ) (s : Site)
    → offers (place_bid_call auction_id user_id amount now s).1.world.db ≡ (
        if (place_bid_call auction_id user_id amount now s).0
        then (auction_id, user_id, amount) ∷ offers s.world.db
        else offers s.world.db)
unfolding place_bid_call place_bid_request
offers-place_bid_call auction_id user_id amount now s =
    go (place_bid auction_id user_id amount false now s.world) refl
  where
    go :
        (x : Result Bid × World)
        → place_bid auction_id user_id amount false now s.world ≡ x
        → offers (place_bid_call auction_id user_id amount now s).1.world.db ≡ (
            if (place_bid_call auction_id user_id amount now s).0
            then (auction_id, user_id, amount) ∷ offers s.world.db
            else offers s.world.db)
    go (ok b, w') e =
        ground (arith, offers-place_bid auction_id user_id amount now false s.world w' e)
    go (err f, w') e =
        ground (arith, place_bid_refused auction_id user_id amount now false s.world w' e)

-- The logged bids, without their times and labels.
unfoldable pub logged : List BidLogEntry → List (ℕ × ℕ × ℕ)
logged log = map (λ e. (e.auction_id, e.bidder_id, e.amount)) log

-- The table holds the logged bids in front of `base`.
abbrev Agrees : List (ℕ × ℕ × ℕ) → Simulation → Type 0
Agrees base s = offers s.site.world.db ≡ logged s.log ++ base

take_turn-Agrees :
    (base : List (ℕ × ℕ × ℕ)) (id : ℕ) (state : AuctionState) (c : Chance) (p : Participant)
    (s : Simulation)
    → Agrees base s
    → Agrees base (take_turn id state c p s).1
unfolding take_turn logged
take_turn-Agrees base id state c p s h =
    elim (Option-cases (decide p.agent state p.user_id c.now c.draws).1) [
      | inl idle ↦ ground arith
      | inr (amount, e) ↦ ground (arith, offers-place_bid_call id p.user_id amount c.now s.site)
    ]

take_turns-Agrees :
    (base : List (ℕ × ℕ × ℕ)) (id : ℕ) (state : AuctionState) (chance : ℕ → Chance) (i : ℕ)
    (ps : List Participant) (s : Simulation)
    → Agrees base s
    → Agrees base (take_turns id state chance i ps s).1
unfolding take_turns
take_turns-Agrees base id state chance i [] s h = h
take_turns-Agrees base id state chance i (p ∷ ps) s h =
    take_turns-Agrees base id state chance (i + 1) ps (take_turn id state (chance i) p s).1
      (take_turn-Agrees base id state (chance i) p s h)

visit-Agrees :
    (base : List (ℕ × ℕ × ℕ)) (viewer : ℕ) (chance : ℕ → Chance) (a : SimAuction) (s : Simulation)
    → Agrees base s
    → Agrees base (visit viewer chance a s).1
unfolding visit
visit-Agrees base viewer chance a s h = elim (Option-cases (get_auction_state a.id viewer s.site)) [
  | inl missing ↦ ground arith
  | inr (state, e) ↦ elim (Bool-cases (is_ended state.status)) [
    | inl over ↦ ground arith
    | inr live ↦ ground (arith, take_turns-Agrees base a.id state chance 0 a.participants s h)
  ]
]

play_round-Agrees :
    (base : List (ℕ × ℕ × ℕ)) (viewer : ℕ) (chance : ℕ → ℕ → Chance) (i : ℕ) (as_ : List SimAuction)
    (s : Simulation)
    → Agrees base s
    → Agrees base (play_round viewer chance i as_ s).1
unfolding play_round
play_round-Agrees base viewer chance i [] s h = h
play_round-Agrees base viewer chance i (a ∷ as_) s h =
    play_round-Agrees base viewer chance (i + 1) as_ (visit viewer (chance i) a s).1
      (visit-Agrees base viewer (chance i) a s h)

run_rounds-Agrees :
    (base : List (ℕ × ℕ × ℕ)) (viewer : ℕ) (chance : ℕ → ℕ → ℕ → Chance) (n : ℕ)
    (as_ : List SimAuction) (s : Simulation)
    → Agrees base s
    → Agrees base (run_rounds viewer chance n as_ s).1
unfolding run_rounds
run_rounds-Agrees base viewer chance zero as_ s h = h
run_rounds-Agrees base viewer chance (suc n) as_ s h =
    let next = play_round viewer (chance n) 0 as_ s in
    run_rounds-Agrees base viewer chance n next.0 next.1
      (play_round-Agrees base viewer (chance n) 0 as_ s h)

length-map : {A B : Type 0} (f : A → B) (xs : List A) → length (map f xs) ≡ length xs
length-map f [] = refl
length-map f (x ∷ xs) = ap suc (length-map f xs)

count :
    (after s : Simulation)
    → Agrees (offers s.site.world.db) after
    → length after.site.world.db.bids ≡ total_bids_of after + length s.site.world.db.bids
unfolding total_bids_of offers logged
count after s rows = omega (
  arith,
  ap length rows,
  length-append (logged after.log) (offers s.site.world.db),
  length-map offer_of after.site.world.db.bids,
  length-map offer_of s.site.world.db.bids,
  length-map {B = ℕ × ℕ × ℕ} (λ (e : BidLogEntry). (e.auction_id, e.bidder_id, e.amount)) after.log,
)

-- The log of a run is the table's record of it: with an empty log at the start, after any number of
-- rounds the table of bids is what it was, below the logged bids, each with its auction, bidder and
-- amount, in the order of the log; and `totalBids` of the manifest is by how much the table has grown.
pub run_rounds-offers :
    (viewer : ℕ) (chance : ℕ → ℕ → ℕ → Chance) (n : ℕ) (as_ : List SimAuction) (s : Simulation)
    → s.log ≡ []
    → let after = (run_rounds viewer chance n as_ s).1 in
      (offers after.site.world.db ≡ logged after.log ++ offers s.site.world.db)
      × (length after.site.world.db.bids ≡ total_bids_of after + length s.site.world.db.bids)
unfolding logged
run_rounds-offers viewer chance n as_ s fresh =
    let after = (run_rounds viewer chance n as_ s).1 in
    let base = offers s.site.world.db in
    let start : Agrees base s = rw fresh refl in
    let rows = run_rounds-Agrees base viewer chance n as_ s start in (rows, count after s rows)
