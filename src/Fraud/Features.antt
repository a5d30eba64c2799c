-- ===== src/Fraud/Features.antt =====
-- `extractFeatures` of back/src/modules/fraud/fraud.features.ts.
pub mod Bounds
use auctionhaus.Prelude.{
  ℕ, ◌-◌, Bool, Option, none, some, List, [], ◌∷◌, reverse, ℤ, pos, ◌-ℤ◌, ltb, if◌then◌else◌, keep,
  length,
}
use auctionhaus.Fraud.Types.{BidEvent, Ratio, FeatureVector}
use auctionhaus.Fraud.Graph.{
  BidGraph, window_minutes, is_recent, get_auction_bids, get_bidder_history,
  bidder_seller_co_occurrence, last_other, reciprocity_score,
}

-- The time since the last bid by somebody else, or 8000.
unfoldable pub response_time : BidEvent → List BidEvent → ℤ
unfolding last_other
response_time e bids = elim (last_other e.bidder_id (reverse bids)) [
  | none ↦ pos 8000
  | some prev ↦ pos e.ts -ℤ pos prev.ts
]

-- `auctionBids[auctionBids.length - 2]`
unfoldable pub second_last : List BidEvent → Option BidEvent
second_last bids = elim (reverse bids) [
  | [] ↦ none
  | last ∷ before ↦ elim before [ [] ↦ none | prev ∷ _ ↦ some prev ]
]

-- The rise over the bid before, in increments: 5 for the first bid, 1 with no increment.
unfoldable pub increment_ratio : BidEvent → List BidEvent → Ratio
unfolding second_last
increment_ratio e bids =
    if ltb 0 e.min_increment
    then elim (second_last bids) [
      | none ↦ record { num = pos 5; den = 1 }
      | some prev ↦ record { num = pos e.amount -ℤ pos prev.amount; den = e.min_increment }
    ]
    else record { num = pos 1; den = 1 }

unfoldable pub extract_features : BidEvent → BidGraph → FeatureVector
unfolding response_time increment_ratio
extract_features e g = record {
  response_time_ms = response_time e (get_auction_bids e.auction_id g);
  bid_frequency_per_min = record {
    num = pos (length (keep (is_recent e.ts) (get_bidder_history e.bidder_id g)));
    den = window_minutes;
  };
  increment_ratio = increment_ratio e (get_auction_bids e.auction_id g);
  seller_co_occurrence = bidder_seller_co_occurrence e.bidder_id e.seller_id g;
  reciprocity_score = reciprocity_score e.auction_id g;
}
