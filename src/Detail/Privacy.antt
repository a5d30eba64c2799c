-- ===== src/Detail/Privacy.antt =====
-- The detail page of a live sealed auction tells a viewer nothing about the bids of others.
use auctionhaus.Prelude.{
  ℕ, zero, suc, ◌≡◌, refl, ap, true, some, List, [], ◌∷◌, arith, keep, first_n, length,
}
use auctionhaus.Schema.{Auction, Bid}
use auctionhaus.Store.{find_auction}
use auctionhaus.Accounts.{Site}
use auctionhaus.BidList.{is_sealed_live, is_on}
use auctionhaus.BidList.Privacy.{Alike, AllAlike, AllAlike-keep}
use auctionhaus.Detail.{insert_latest, latest_first, is_own, shown_bids, get_auction_by_id}

AllAlike-insert_latest :
    (viewer : ℕ) (b c : Bid) (bs cs : List Bid)
    → Alike viewer b c
    → AllAlike viewer bs cs
    → AllAlike viewer (insert_latest b bs) (insert_latest c cs)
unfolding insert_latest
AllAlike-insert_latest viewer b c [] [] h hs = (h, tt)
AllAlike-insert_latest viewer b c [] (y ∷ ys) h hs = absurd hs
AllAlike-insert_latest viewer b c (x ∷ xs) [] h hs = absurd hs
AllAlike-insert_latest viewer b c (x ∷ xs) (y ∷ ys) h hs =
    ground (arith, AllAlike-insert_latest viewer b c xs ys h hs.1)

AllAlike-latest_first :
    (viewer : ℕ) (bs cs : List Bid)
    → AllAlike viewer bs cs
    → AllAlike viewer (latest_first bs) (latest_first cs)
unfolding latest_first
AllAlike-latest_first viewer [] [] hs = tt
AllAlike-latest_first viewer [] (y ∷ ys) hs = absurd hs
AllAlike-latest_first viewer (x ∷ xs) [] hs = absurd hs
AllAlike-latest_first viewer (x ∷ xs) (y ∷ ys) hs =
    AllAlike-insert_latest viewer x y _ _ hs.0 (AllAlike-latest_first viewer xs ys hs.1)

AllAlike-first_n :
    (n viewer : ℕ) (bs cs : List Bid)
    → AllAlike viewer bs cs
    → AllAlike viewer (first_n n bs) (first_n n cs)
unfolding first_n
AllAlike-first_n zero viewer bs cs hs = tt
AllAlike-first_n (suc n) viewer [] [] hs = tt
AllAlike-first_n (suc n) viewer [] (y ∷ ys) hs = absurd hs
AllAlike-first_n (suc n) viewer (x ∷ xs) [] hs = absurd hs
AllAlike-first_n (suc n) viewer (x ∷ xs) (y ∷ ys) hs = (hs.0, AllAlike-first_n n viewer xs ys hs.1)

own-AllAlike :
    (viewer : ℕ) (bs cs : List Bid)
    → AllAlike viewer bs cs
    → keep (is_own (some viewer)) bs ≡ keep (is_own (some viewer)) cs
unfolding keep
own-AllAlike viewer [] [] hs = refl
own-AllAlike viewer [] (y ∷ ys) hs = absurd hs
own-AllAlike viewer (x ∷ xs) [] hs = absurd hs
own-AllAlike viewer (x ∷ xs) (y ∷ ys) hs = grind (arith, own-AllAlike viewer xs ys hs.1)

length-AllAlike : (viewer : ℕ) (bs cs : List Bid) → AllAlike viewer bs cs → length bs ≡ length cs
length-AllAlike viewer [] [] hs = refl
length-AllAlike viewer [] (y ∷ ys) hs = absurd hs
length-AllAlike viewer (x ∷ xs) [] hs = absurd hs
length-AllAlike viewer (x ∷ xs) (y ∷ ys) hs = ap suc (length-AllAlike viewer xs ys hs.1)

shown_bids-AllAlike :
    (a : Auction) (viewer : ℕ) (bs cs : List Bid)
    → is_sealed_live a ≡ true
    → AllAlike viewer bs cs
    → shown_bids a (some viewer) bs ≡ shown_bids a (some viewer) cs
unfolding shown_bids
shown_bids-AllAlike a viewer bs cs live hs =
    let same = own-AllAlike viewer (first_n 20 (latest_first bs)) (first_n 20 (latest_first cs)) (
      AllAlike-first_n 20 viewer (latest_first bs) (latest_first cs)
        (AllAlike-latest_first viewer bs cs hs)) in
    grind arith

-- While a sealed auction is live, two tables of bids that differ only in the amounts and makers of bids
-- that are not the viewer's give the viewer the same detail page.
pub get_auction_by_id-private :
    (auction_id viewer : ℕ) (a : Auction) (s : Site) (others_ : List Bid)
    → find_auction auction_id s.world.db.auctions ≡ some a
    → is_sealed_live a ≡ true
    → AllAlike viewer s.world.db.bids others_
    → get_auction_by_id auction_id (some viewer) s
      ≡ get_auction_by_id auction_id
          (some viewer)
          (record s { world = record s.world { db = record s.world.db { bids = others_ } } })
unfolding get_auction_by_id
get_auction_by_id-private auction_id viewer a s others_ found live alike =
    let kept = AllAlike-keep viewer auction_id s.world.db.bids others_ alike in
    let bids =
      shown_bids-AllAlike a viewer (keep (is_on auction_id) s.world.db.bids)
        (keep (is_on auction_id) others_) live kept in
    let count =
      length-AllAlike viewer (keep (is_on auction_id) s.world.db.bids)
        (keep (is_on auction_id) others_) kept in
    grind arith
