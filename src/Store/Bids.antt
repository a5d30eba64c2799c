-- ===== src/Store/Bids.antt =====
-- Bid rows: ids are unique, and a change of status moves a sum over the bids by one row's share.
use auctionhaus.Prelude.{
  ℕ, ◌<◌, ◌≤◌, ◌≡◌, refl, Bool, true, none, some, List, [], ◌∷◌, ℤ, ◌+ℤ◌, ◌==◌, find_first, sum_of,
  arith, int_laws,
}
use auctionhaus.Schema.{Bid, BidStatus, is_winning}
use auctionhaus.Store.{set_status, find_winning, wins}

-- Ids fall along the table and stay below the next one, so they are unique.
abbrev pub IdsBelow : ℕ → List Bid → Type 0
IdsBelow n [] = Unit {0}
IdsBelow n (b ∷ bs) = (b.id < n) × IdsBelow b.id bs

pub IdsBelow-mono : (m n : ℕ) (bs : List Bid) → m ≤ n → IdsBelow m bs → IdsBelow n bs
IdsBelow-mono m n [] le h = tt
IdsBelow-mono m n (b ∷ bs) le h = (omega arith, h.1)

pub IdsBelow-set_status :
    (n i : ℕ) (s : BidStatus) (bs : List Bid) → IdsBelow n bs → IdsBelow n (set_status i s bs)
unfolding set_status
IdsBelow-set_status n i s [] h = tt
IdsBelow-set_status n i s (b ∷ bs) h = ground (arith, IdsBelow-set_status b.id i s bs h.1)

pub find_by_id-ge :
    (n i : ℕ) (bs : List Bid) → IdsBelow n bs → n ≤ i → find_first (λ b. b.id == i) bs ≡ none
unfolding find_first
find_by_id-ge n i [] h le = refl
find_by_id-ge n i (b ∷ bs) h le = ground (arith, find_by_id-ge b.id i bs h.1)

pub id_below :
    (n : ℕ) (p : Bid → Bool) (bs : List Bid) {b : Bid}
    → IdsBelow n bs
    → find_first p bs ≡ some b
    → b.id < n
unfolding find_first
id_below n p [] h e = cc
id_below n p (x ∷ bs) {b} h e = ground (arith, id_below x.id p bs {b = b} h.1)

-- The row that a query found is the row that an update by its id reaches.
pub find_by_id :
    (n : ℕ) (p : Bid → Bool) (bs : List Bid) {b : Bid}
    → IdsBelow n bs
    → find_first p bs ≡ some b
    → find_first (λ x. x.id == b.id) bs ≡ some b
unfolding find_first
find_by_id n p [] h e = cc
find_by_id n p (x ∷ bs) {b} h e =
    ground (arith, id_below x.id p bs {b = b} h.1, find_by_id x.id p bs {b = b} h.1)

pub sum_of-set_status :
    (f : Bid → ℤ) (i : ℕ) (s : BidStatus) (bs : List Bid) {b : Bid}
    → find_first (λ x. x.id == i) bs ≡ some b
    → sum_of f (set_status i s bs) +ℤ f b ≡ sum_of f bs +ℤ f (record b { status = s })
unfolding find_first set_status sum_of
sum_of-set_status f i s [] e = cc
sum_of-set_status f i s (x ∷ bs) {b} e = grind (int_laws, sum_of-set_status f i s bs {b = b})

pub find_first-passes :
    (p : Bid → Bool) (bs : List Bid) {b : Bid} → find_first p bs ≡ some b → p b ≡ true
unfolding find_first
find_first-passes p [] e = cc
find_first-passes p (x ∷ bs) {b} e = ground (arith, find_first-passes p bs {b = b})

-- A winning bid that was found belongs to the auction, and its id leads back to it.
pub find_winning-facts :
    (n id : ℕ) (bs : List Bid) {b : Bid}
    → IdsBelow n bs
    → find_winning id bs ≡ some b
    → (b.auction_id ≡ id)
      × (is_winning b.status ≡ true)
      × (find_first (λ x. x.id == b.id) bs ≡ some b)
unfolding find_winning
find_winning-facts n id bs {b} ids e =
    ground (arith, find_first-passes (wins id) bs e, find_by_id n (wins id) bs ids e)
