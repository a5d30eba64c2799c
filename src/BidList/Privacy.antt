-- ===== src/BidList/Privacy.antt =====
-- While a sealed auction is live its list tells a viewer nothing about the bids of others.
use auctionhaus.Prelude.{ℕ, ◌≡◌, ◌≢◌, ◌⊎◌, refl, true, some, List, [], ◌∷◌, arith, keep, map}
use auctionhaus.Schema.{Auction, Bid}
use auctionhaus.Store.{Db, find_auction}
use auctionhaus.BidList.{masked, insert_by_time, by_time, is_sealed_live, is_on, get_auction_bids}

-- Two bids that differ at most in the amount and in who made them, neither being the viewer's.
abbrev pub Alike : ℕ → Bid → Bid → Type 0
Alike viewer b c =
    (b.id ≡ c.id)
    × (b.auction_id ≡ c.auction_id)
    × (b.status ≡ c.status)
    × (b.is_auto_bid ≡ c.is_auto_bid)
    × (b.created_at ≡ c.created_at)
    × ((b ≡ c) ⊎ ((b.bidder_id ≢ viewer) × (c.bidder_id ≢ viewer)))

abbrev pub AllAlike : ℕ → List Bid → List Bid → Type 0
AllAlike viewer [] [] = Unit
AllAlike viewer [] (c ∷ cs) = ⊥
AllAlike viewer (b ∷ bs) [] = ⊥
AllAlike viewer (b ∷ bs) (c ∷ cs) = Alike viewer b c × AllAlike viewer bs cs

masked-Alike : (viewer : ℕ) (b c : Bid) → Alike viewer b c → masked viewer b ≡ masked viewer c
masked-Alike viewer b c h = ground arith

AllAlike-insert :
    (viewer : ℕ) (b c : Bid) (bs cs : List Bid)
    → Alike viewer b c
    → AllAlike viewer bs cs
    → AllAlike viewer (insert_by_time b bs) (insert_by_time c cs)
unfolding insert_by_time
AllAlike-insert viewer b c [] [] h hs = (h, tt)
AllAlike-insert viewer b c [] (y ∷ ys) h hs = absurd hs
AllAlike-insert viewer b c (x ∷ xs) [] h hs = absurd hs
AllAlike-insert viewer b c (x ∷ xs) (y ∷ ys) h hs =
    ground (arith, AllAlike-insert viewer b c xs ys h hs.1)

AllAlike-by_time :
    (viewer : ℕ) (bs cs : List Bid)
    → AllAlike viewer bs cs
    → AllAlike viewer (by_time bs) (by_time cs)
unfolding by_time
AllAlike-by_time viewer [] [] hs = tt
AllAlike-by_time viewer [] (y ∷ ys) hs = absurd hs
AllAlike-by_time viewer (x ∷ xs) [] hs = absurd hs
AllAlike-by_time viewer (x ∷ xs) (y ∷ ys) hs =
    AllAlike-insert viewer x y _ _ hs.0 (AllAlike-by_time viewer xs ys hs.1)

pub AllAlike-keep :
    (viewer auction_id : ℕ) (bs cs : List Bid)
    → AllAlike viewer bs cs
    → AllAlike viewer (keep (is_on auction_id) bs) (keep (is_on auction_id) cs)
unfolding keep
AllAlike-keep viewer auction_id [] [] hs = tt
AllAlike-keep viewer auction_id [] (y ∷ ys) hs = absurd hs
AllAlike-keep viewer auction_id (x ∷ xs) [] hs = absurd hs
AllAlike-keep viewer auction_id (x ∷ xs) (y ∷ ys) hs =
    ground (arith, AllAlike-keep viewer auction_id xs ys hs.1)

map-Alike :
    (viewer : ℕ) (bs cs : List Bid)
    → AllAlike viewer bs cs
    → map (masked viewer) bs ≡ map (masked viewer) cs
map-Alike viewer [] [] hs = refl
map-Alike viewer [] (y ∷ ys) hs = absurd hs
map-Alike viewer (x ∷ xs) [] hs = absurd hs
map-Alike viewer (x ∷ xs) (y ∷ ys) hs =
    rw (masked-Alike viewer x y hs.0, map-Alike viewer xs ys hs.1) refl

-- A viewer of a live sealed auction sees the same list whatever the others bid, and whoever they
-- are: two tables of bids that differ in that alone give one answer.
pub get_auction_bids-private :
    (auction_id viewer : ℕ) (db : Db) (bs : List Bid) (a : Auction)
    → find_auction auction_id db.auctions ≡ some a
    → is_sealed_live a ≡ true
    → AllAlike viewer db.bids bs
    → get_auction_bids auction_id viewer db
      ≡ get_auction_bids auction_id viewer (record db { bids = bs })
unfolding get_auction_bids
get_auction_bids-private auction_id viewer db bs a e live hs =
    let same =
      map-Alike viewer _ _
        (AllAlike-by_time viewer _ _ (AllAlike-keep viewer auction_id db.bids bs hs)) in
    ground (arith, same)
