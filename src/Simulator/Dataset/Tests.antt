-- ===== src/Simulator/Dataset/Tests.antt =====
-- Three bids of two runs' worth, replayed and split.
use auctionhaus.Prelude.{ℕ, ◌≡◌, refl, false, List, [], ◌∷◌}
use auctionhaus.Simulator.Run.{BidLogEntry}
use auctionhaus.Simulator.Dataset.{Manifest, Example, fnv1a, load_run}

-- Of the hash of the empty text, and of "a".
offset_basis : fnv1a [] ≡ 2166136261
unfolding fnv1a
offset_basis = refl

hash_of_a : fnv1a (97 ∷ []) ≡ 3826002220
unfolding fnv1a
hash_of_a = refl

abbrev spell : ℕ → List ℕ
spell n = n ∷ []

abbrev manifest : Manifest
manifest = record { run_id = 7; auction_owners = (10, 1) ∷ []; min_increment = 100 }

abbrev entry : ℕ → ℕ → ℕ → BidLogEntry
entry ts bidder amount = record {
  ts = ts;
  auction_id = 10;
  bidder_id = bidder;
  amount = amount;
  is_shill = false;
}

abbrev events : List BidLogEntry
events = entry 3000 2 1300 ∷ entry 1000 2 1100 ∷ entry 2000 3 1200 ∷ []

abbrev both : List Example
both = load_run spell 0 manifest events
