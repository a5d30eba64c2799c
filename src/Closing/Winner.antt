-- ===== src/Closing/Winner.antt =====
-- Who wins when an auction ends.
use mathlib.Core.Path.{subst}
use auctionhaus.Prelude.{
  ℕ, ◌≤◌, ◌≡◌, ◌≢◌, ◌⊎◌, inl, inr, refl, true, false, some, none, Option-cases, Bool-cases, List,
  [], ◌∷◌, arith, keep, leb, All,
}
use auctionhaus.Schema.{Bid, is_ended}
use auctionhaus.Store.{Db, find_auction, wins}
use auctionhaus.Tx.{World, ok}
use auctionhaus.Closing.{Ending, reserve_met, insert_by_amount, by_amount, first_bid, determine}

-- The first of the bids by amount is one of them, and none is higher.
abbrev pub IsTop : Bid → List Bid → Type 0
IsTop b bs = All (λ x. x.amount ≤ b.amount) bs

abbrev pub Has : Bid → List Bid → Type 0
Has b [] = ⊥
Has b (x ∷ xs) = (x ≡ b) ⊎ Has b xs

IsTop-mono : (b c : Bid) (bs : List Bid) → b.amount ≤ c.amount → IsTop b bs → IsTop c bs
IsTop-mono b c [] le h = tt
IsTop-mono b c (x ∷ xs) le h = (omega (arith, h.0), IsTop-mono b c xs le h.1)

first_bid-insert :
    (x : Bid) (bs : List Bid)
    → first_bid (insert_by_amount x bs) ≡ elim (first_bid bs) [
      | none ↦ some x
      | some y ↦ elim (leb y.amount x.amount) [ true ↦ some x | false ↦ some y ]
    ]
unfolding first_bid insert_by_amount
first_bid-insert x [] = refl
first_bid-insert x (y ∷ ys) = ground arith

first_bid-none : (x : Bid) (bs : List Bid) → first_bid (insert_by_amount x bs) ≢ none
first_bid-none x bs h = ground (arith, first_bid-insert x bs)

first_bid-insert_highest :
    (x y b : Bid) (bs sorted : List Bid)
    → first_bid sorted ≡ some y
    → Has y bs × IsTop y bs
    → first_bid (insert_by_amount x sorted) ≡ some b
    → Has b (x ∷ bs) × IsTop b (x ∷ bs)
first_bid-insert_highest x y b bs sorted e (has, top) h =
    let step = first_bid-insert x sorted in
    elim (Bool-cases (leb y.amount x.amount)) [
      | inl over ↦
          let same : x ≡ b = ground arith in
          (inl same, (ground arith, IsTop-mono y b bs (ground arith) top))
      | inr under ↦
          let same : y ≡ b = ground arith in
          (
            inr (subst (λ z. Has z bs) same has),
            (ground arith, IsTop-mono y b bs (ground arith) top),
          )
    ]

first_bid-empty : (b : Bid) → first_bid [] ≢ some b
unfolding first_bid
first_bid-empty b h = ground arith

first_bid-single :
    (x b : Bid) → first_bid (insert_by_amount x []) ≡ some b → Has b (x ∷ []) × IsTop b (x ∷ [])
unfolding first_bid insert_by_amount
first_bid-single x b h = let same : x ≡ b = ground arith in (inl same, (ground arith, tt))

-- The bid that comes first by amount is one of the list, and the highest.
pub first_bid-highest :
    (bs : List Bid) (b : Bid) → first_bid (by_amount bs) ≡ some b → Has b bs × IsTop b bs
unfolding by_amount
first_bid-highest [] b h = absurd (first_bid-empty b h)
first_bid-highest (x ∷ []) b h = first_bid-single x b h
first_bid-highest (x ∷ y ∷ ys) b h = elim (Option-cases (first_bid (by_amount (y ∷ ys)))) [
  | inl e ↦ absurd (first_bid-none y (by_amount ys) e)
  | inr (top, e) ↦
      first_bid-insert_highest x top b (y ∷ ys) (by_amount (y ∷ ys)) e
        (first_bid-highest (y ∷ ys) top e) h
]

abbrev pub winning_of : ℕ → Db → List Bid
winning_of auction_id db = keep (wins auction_id) db.bids

-- The first transaction closes an auction that is not ENDED and exists, and no other; its winner,
-- if there is one, made the highest winning bid, and that bid meets the reserve.
pub determine-winner :
    (auction_id now : ℕ) (w w' : World) {e : Ending}
    → determine auction_id now w ≡ (ok (some e), w')
    → (find_auction auction_id w.db.auctions ≡ some e.auction)
      × (is_ended e.auction.status ≡ false)
      × ((uid : ℕ)
          → e.winner ≡ some uid
          → (b : Bid) × (e.winning_bid ≡ some b)
            × Has b (winning_of auction_id w.db)
            × IsTop b (winning_of auction_id w.db)
            × (b.bidder_id ≡ uid)
            × (reserve_met e.auction.reserve_price (some b) ≡ true))
unfolding determine
determine-winner auction_id now w w' {e} h =
    let tops = winning_of auction_id w.db in
    elim (Option-cases (first_bid (by_amount tops))) [
      | inl nobody ↦ (ground arith, ground arith, λ uid won. ground arith)
      | inr (b, top) ↦
          let (has, highest) = first_bid-highest tops b top in
          (
            ground arith,
            ground arith,
            λ uid won. (b, ground arith, has, highest, ground arith, ground arith),
          )
    ]
