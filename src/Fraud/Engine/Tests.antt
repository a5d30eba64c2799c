-- ===== src/Fraud/Engine/Tests.antt =====
-- Two bidders who outbid each other, and the engine with integers for numbers.
use auctionhaus.Prelude.{
  ℕ, ◌≡◌, refl, arith, false, List, [], ◌∷◌, ℤ, pos, neg, ◌+ℤ◌, ◌-ℤ◌, ◌≤ℤ◌, ltb_ℤ, length, keep,
}
use auctionhaus.Fraud.Types.{BidEvent, Ratio}
use auctionhaus.Fraud.Buckets.{events_of, push_event, trim}
use auctionhaus.Fraud.Graph.{
  prune, add_event, has_id, distinct, last_other, outbid_pairs, has_pair, mutual_with, mutual_pairs,
  total_pairs, reciprocity_score, get_auction_bids, get_bidder_history, graph_stats, window_ms,
}
use auctionhaus.Fraud.Graph.Window.{window, is_on, is_by, add_events, graph_of, graph_of-window}
use auctionhaus.Fraud.Graph.Bounds.{IsFraction}
use auctionhaus.Fraud.Features.{extract_features}
use auctionhaus.Fraud.Features.Bounds.{extract_features-bounds}
use auctionhaus.Fraud.Classifier.{Floats}
use auctionhaus.Fraud.Engine.Run.{Timed}

abbrev event : ℕ → ℕ → ℕ → ℕ → BidEvent
event bid_id bidder_id amount ts = record {
  bid_id = bid_id;
  auction_id = 10;
  bidder_id = bidder_id;
  seller_id = 1;
  amount = amount;
  min_increment = 100;
  ts = ts;
  is_auto_bid = false;
}

abbrev duel : List BidEvent
duel =
    event 1 2 1100 5
    ∷ event 2 3 1200 7
    ∷ event 3 2 1300 2000000
    ∷ event 4 3 1400 2000010
    ∷ event 5 2 1500 2000020
    ∷ []

run_reciprocity : List BidEvent → Ratio
unfolding events_of push_event trim prune add_event add_events has_id distinct last_other
    outbid_pairs has_pair mutual_with mutual_pairs total_pairs reciprocity_score keep
run_reciprocity es = reciprocity_score 10 (graph_of es)

-- The first two bids are out of the window, and the other two bidders outbid each other.
reciprocal : run_reciprocity duel ≡ record { num = pos 1; den = 1 }
unfolding run_reciprocity
reciprocal = refl

graph_of-window_example :
    ((a : ℕ) → get_auction_bids a (graph_of duel) ≡ keep (is_on a) (window 2000020 duel))
    × ((b : ℕ) → get_bidder_history b (graph_of duel) ≡ keep (is_by b) (window 2000020 duel))
    × ((graph_stats (graph_of duel)).bids ≡ length (window 2000020 duel))
graph_of-window_example = graph_of-window duel (omega arith)

extract_features-bounds_example :
    let f = extract_features (event 5 2 1500 2000020) (graph_of duel) in
    (pos 0 ≤ℤ f.response_time_ms)
    × (f.response_time_ms ≤ℤ pos window_ms)
    × IsFraction f.reciprocity_score
    × (pos f.seller_co_occurrence ≤ℤ f.bid_frequency_per_min.num)
extract_features-bounds_example =
    extract_features-bounds duel (event 5 2 1500 2000020) (omega arith) refl

-- Integers in the place of the numbers.
abbrev integers : Floats
integers = record {
  Float = ℤ;
  of_int = λ a. a;
  add = ◌+ℤ◌;
  sub = ◌-ℤ◌;
  mul = λ a b. a;
  div = λ a b. a;
  negate = neg;
  exp = λ a. a;
  minimum = λ a b. a;
  maximum = λ a b. b;
  less = ltb_ℤ;
}

abbrev bids : List Timed
bids =
    record { event = event 1 2 1100 5; elapsed = 3 }
    ∷ record { event = event 2 3 1200 7; elapsed = 4 }
    ∷ []
