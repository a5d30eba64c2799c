-- ===== src/Fraud/Graph/Bounds.antt =====
-- Bounds on what the graph counts.
use auctionhaus.Prelude.{
  ℕ, ◌≤◌, ◌≡◌, refl, List, [], ◌∷◌, pos, ◌≤ℤ◌, length, length-keep-le, keep, map, arith, ◌==◌, ◌&&◌,
  not,
}
use auctionhaus.Fraud.Types.{BidEvent, Ratio}
use auctionhaus.Fraud.Graph.{
  BidGraph, get_auction_bids, get_bidder_history, distinct, bidder_seller_co_occurrence, OutbidPair,
  mutual_with, mutual_pairs, total_pairs, outbid_pairs, reciprocity_score,
}

length-distinct : (is : List ℕ) → length (distinct is) ≤ length is
unfolding distinct
length-distinct [] = omega arith
length-distinct (i ∷ is) = ground (arith, length-distinct is)

length-map : (f : BidEvent → ℕ) (es : List BidEvent) → length (map f es) ≡ length es
length-map f [] = refl
length-map f (e ∷ es) = omega (arith, length-map f es)

mutual_with-le : (ps : List OutbidPair) (a : ℕ) (bs : List ℕ) → mutual_with ps a bs ≤ length bs
unfolding mutual_with
mutual_with-le ps a [] = omega arith
mutual_with-le ps a (b ∷ bs) = ground (arith, mutual_with-le ps a bs)

mutual_pairs-le : (ps : List OutbidPair) (ids : List ℕ) → mutual_pairs ps ids ≤ total_pairs ids
unfolding mutual_pairs total_pairs
mutual_pairs-le ps [] = omega arith
mutual_pairs-le ps (a ∷ ids) = omega (arith, mutual_pairs-le ps ids, mutual_with-le ps a ids)

-- A fraction between zero and one.
abbrev pub IsFraction : Ratio → Type 0
IsFraction r = (pos 0 ≤ℤ r.num) × (r.num ≤ℤ pos r.den) × (1 ≤ r.den)

-- The reciprocity of an auction is a fraction between zero and one, in whatever state the graph is.
pub reciprocity_score-IsFraction :
    (auction_id : ℕ) (g : BidGraph) → IsFraction (reciprocity_score auction_id g)
unfolding reciprocity_score
reciprocity_score-IsFraction auction_id g =
    let bids = get_auction_bids auction_id g in
    let ids = distinct (map (λ e. e.bidder_id) bids) in
    ground (arith, mutual_pairs-le (outbid_pairs [] bids) ids)

pub co_occurrence-le :
    (bidder_id seller_id : ℕ) (g : BidGraph)
    → bidder_seller_co_occurrence bidder_id seller_id g ≤ length (get_bidder_history bidder_id g)
unfolding bidder_seller_co_occurrence
co_occurrence-le bidder_id seller_id g =
    let history = get_bidder_history bidder_id g in
    let p = λ (e : BidEvent). e.seller_id == seller_id && not (e.bidder_id == seller_id) in
    omega (
      arith,
      length-distinct (map (λ e. e.auction_id) (keep p history)),
      length-map (λ e. e.auction_id) (keep p history),
      length-keep-le p history,
    )
