-- ===== src/Fraud/Graph.antt =====
-- `BidGraph` of back/src/modules/fraud/fraud.graph.ts: the events of the last half hour, by auction and
-- by bidder.
pub mod Window
pub mod Bounds
use auctionhaus.Prelude.{
  ℕ, ◌+◌, ◌*◌, Bool, true, false, not, ◌&&◌, ◌||◌, Option, none, some, List, [], ◌∷◌, pos, leb, ltb,
  ◌==◌, if◌then◌else◌, keep, map, length,
}
use auctionhaus.Fraud.Types.{BidEvent, Ratio}
use auctionhaus.Fraud.Buckets.{Buckets, Bucket, events_of, push_event, trim}

pub record BidGraph : Type 0 where
  pub auction_bids : Buckets
  pub bidder_history : Buckets

abbrev pub empty_graph : BidGraph
empty_graph = record { auction_bids = []; bidder_history = [] }

abbrev pub window_minutes : ℕ
window_minutes = 30

abbrev pub window_ms : ℕ
window_ms = window_minutes * 60 * 1000

-- `b.ts >= nowMs - WINDOW_MS`
abbrev pub is_recent : ℕ → BidEvent → Bool
is_recent now e = leb now (e.ts + window_ms)

unfoldable pub prune : ℕ → BidGraph → BidGraph
unfolding trim
prune now g = record {
  auction_bids = trim (is_recent now) g.auction_bids;
  bidder_history = trim (is_recent now) g.bidder_history;
}

-- `add`
unfoldable pub add_event : BidEvent → BidGraph → BidGraph
unfolding prune push_event
add_event e g =
    let pruned = prune e.ts g in
    record {
      auction_bids = push_event e.auction_id e pruned.auction_bids;
      bidder_history = push_event e.bidder_id e pruned.bidder_history;
    }

abbrev pub get_auction_bids : ℕ → BidGraph → List BidEvent
get_auction_bids auction_id g = events_of auction_id g.auction_bids

abbrev pub get_bidder_history : ℕ → BidGraph → List BidEvent
get_bidder_history bidder_id g = events_of bidder_id g.bidder_history

unfoldable pub has_id : ℕ → List ℕ → Bool
has_id i [] = false
has_id i (j ∷ js) = i == j || has_id i js

-- `[...new Set(ids)]`. Of equal ids the last stays where the code keeps the first; only how many
-- there are, and the pairs of them without their order, are used.
unfoldable pub distinct : List ℕ → List ℕ
unfolding has_id
distinct [] = []
distinct (i ∷ is) = let rest = distinct is in if has_id i is then rest else i ∷ rest

-- `bidderSellerCoOccurrence`
unfoldable pub bidder_seller_co_occurrence : ℕ → ℕ → BidGraph → ℕ
unfolding distinct keep
bidder_seller_co_occurrence bidder_id seller_id g = length (
    distinct (
      map (λ e. e.auction_id)
        (keep (λ e. e.seller_id == seller_id && not (e.bidder_id == seller_id))
          (get_bidder_history bidder_id g))))

pub record OutbidPair : Type 0 where
  pub upper : ℕ
  pub lower : ℕ

-- The most recent bid by somebody else, of a list with the newest first.
unfoldable pub last_other : ℕ → List BidEvent → Option BidEvent
last_other bidder_id [] = none
last_other bidder_id (e ∷ es) = if e.bidder_id == bidder_id then last_other bidder_id es else some e

-- `outbidPairs`: the bids before, newest first, then those to come, oldest first.
unfoldable pub outbid_pairs : List BidEvent → List BidEvent → List OutbidPair
unfolding last_other
outbid_pairs before [] = []
outbid_pairs before (e ∷ es) =
    let rest = outbid_pairs (e ∷ before) es in
    elim (last_other e.bidder_id before) [
      | none ↦ rest
      | some prev ↦ record { upper = e.bidder_id; lower = prev.bidder_id } ∷ rest
    ]

unfoldable pub has_pair : ℕ → ℕ → List OutbidPair → Bool
has_pair a b [] = false
has_pair a b (p ∷ ps) = (p.upper == a && p.lower == b) || has_pair a b ps

abbrev pub is_mutual : List OutbidPair → ℕ → ℕ → Bool
is_mutual ps a b = has_pair a b ps && has_pair b a ps

-- The mutual pairs of one bidder with those that follow.
unfoldable pub mutual_with : List OutbidPair → ℕ → List ℕ → ℕ
unfolding has_pair
mutual_with ps a [] = 0
mutual_with ps a (b ∷ bs) = (if is_mutual ps a b then 1 else 0) + mutual_with ps a bs

-- `mutualPairs` and `totalPairs`
unfoldable pub mutual_pairs : List OutbidPair → List ℕ → ℕ
unfolding mutual_with
mutual_pairs ps [] = 0
mutual_pairs ps (a ∷ as_) = mutual_with ps a as_ + mutual_pairs ps as_

unfoldable pub total_pairs : List ℕ → ℕ
total_pairs [] = 0
total_pairs (a ∷ as_) = length as_ + total_pairs as_

abbrev pub no_ratio : Ratio
no_ratio = record { num = pos 0; den = 1 }

abbrev pub reciprocity_of : List BidEvent → Ratio
reciprocity_of bids =
    let ids = distinct (map (λ e. e.bidder_id) bids) in
    if total_pairs ids == 0
    then no_ratio
    else record { num = pos (mutual_pairs (outbid_pairs [] bids) ids); den = total_pairs ids }

-- `reciprocityScore`
unfoldable pub reciprocity_score : ℕ → BidGraph → Ratio
unfolding events_of
reciprocity_score auction_id g =
    let bids = get_auction_bids auction_id g in
    if ltb (length bids) 3 then no_ratio else reciprocity_of bids

unfoldable pub total_bids : Buckets → ℕ
total_bids [] = 0
total_bids (b ∷ bs) = length b.events + total_bids bs

pub record GraphStats : Type 0 where
  pub auctions : ℕ
  pub bidders : ℕ
  pub bids : ℕ
  pub approx_bytes : ℕ

-- `stats`
unfoldable pub graph_stats : BidGraph → GraphStats
unfolding total_bids
graph_stats g = record {
  auctions = length g.auction_bids;
  bidders = length g.bidder_history;
  bids = total_bids g.auction_bids;
  approx_bytes =
      (length g.auction_bids + length g.bidder_history) * 200 + total_bids g.auction_bids * 180;
}
