-- ===== src/Simulator/Dataset/Replay.antt =====
-- The replay against the plain list of the events before.
use auctionhaus.Prelude.{ℕ, ◌≡◌, Bool, ◌&&◌, List, [], ◌∷◌, ◌++◌, map, length, keep, ◌==◌}
use auctionhaus.Fraud.Types.{BidEvent}
use auctionhaus.Fraud.Graph.Window.{graph_of}
use auctionhaus.Simulator.Run.{BidLogEntry}
use auctionhaus.Simulator.Dataset.{Example, Manifest, prior_count, event_of, example_of}

-- An entry of one bidder on one auction.
abbrev pub is_same : ℕ → ℕ → BidLogEntry → Bool
is_same auction_id bidder_id e = auction_id == e.auction_id && bidder_id == e.bidder_id

-- The counts are those of the entries before.
abbrev HasCounts : List BidLogEntry → List ((ℕ × ℕ) × ℕ) → Type 0
HasCounts before counts = (a b : ℕ) → prior_count a b counts ≡ length (keep (is_same a b) before)

module _ (spell : ℕ → List ℕ) (unknown : ℕ) (m : Manifest) where
  abbrev pub events_of : List BidLogEntry → List BidEvent
  events_of es = map (event_of spell unknown m) es

  -- What the example of an entry should be: the features in the graph of all events up to it, and the
  -- place of the bid among the bidder's on the auction.
  unfoldable pub examples_after : List BidLogEntry → List BidLogEntry → List Example
  examples_after before [] = []
  examples_after before (e ∷ es) =
      example_of spell unknown m e (graph_of (events_of (before ++ e ∷ [])))
        (length (keep (is_same e.auction_id e.bidder_id) before))
      ∷ examples_after (before ++ e ∷ []) es
