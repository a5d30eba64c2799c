-- ===== src/Simulator/Dataset.antt =====
-- packages/simulator/src/dataset.ts: the logs of runs, replayed through the fraud detector's graph, and
-- the split of the examples. Ids are numbers; `spell` gives the text that an id or a time is.
pub mod Partition
pub mod Replay
pub mod Sorted
mod Tests
use Prim.Native.Nat.{bit_xor}
use auctionhaus.Prelude.{
  ℕ, ◌+◌, ◌*◌, ◌%◌, Bool, true, false, ◌&&◌, Option, none, some, List, [], ◌∷◌, ◌++◌, leb, ltb,
  ◌==◌, if◌then◌else◌,
}
use auctionhaus.Fraud.Types.{BidEvent, FeatureVector}
use auctionhaus.Fraud.Graph.{BidGraph, empty_graph, add_event}
use auctionhaus.Fraud.Features.{extract_features}
use auctionhaus.Simulator.Run.{BidLogEntry}

pub record Example : Type 0 where
  pub features : FeatureVector
  pub is_shill : Bool
  pub bid_id : List ℕ
  pub run_id : ℕ
  pub auction_id : ℕ
  pub bidder_bid_count_on_auction : ℕ

-- Of `SimRunManifest`: the run, the owners of its auctions, where they are listed, and the increment.
pub record Manifest : Type 0 where
  pub run_id : ℕ
  pub auction_owners : List (ℕ × ℕ)
  pub min_increment : ℕ

abbrev pub word : ℕ
word = 4294967296

-- `fnv1a`, from a state on: `h ^= c`, then `Math.imul(h, 0x01000193)`.
unfoldable pub fnv1a_from : ℕ → List ℕ → ℕ
fnv1a_from h [] = h
fnv1a_from h (c ∷ cs) = fnv1a_from (bit_xor h c * 16777619 % word) cs

unfoldable pub fnv1a : List ℕ → ℕ
unfolding fnv1a_from
fnv1a s = fnv1a_from 2166136261 s

-- `fnv1a(ex.bidId) < testFraction * 0xffffffff`, for a fraction of fifths.
unfoldable pub is_test : ℕ → Example → Bool
unfolding fnv1a
is_test fifths e = ltb (fnv1a e.bid_id * 5) (fifths * 4294967295)

pub record Split : Type 0 where
  pub train : List Example
  pub test : List Example

-- `splitTrainTest`
unfoldable pub split_train_test : ℕ → List Example → Split
split_train_test fifths [] = record { train = []; test = [] }
split_train_test fifths (e ∷ es) =
    let rest = split_train_test fifths es in
    if is_test fifths e
    then record rest { test = e ∷ rest.test }
    else record rest { train = e ∷ rest.train }

-- `events.sort((a, b) => a.ts - b.ts)`, which keeps the order of equal times.
unfoldable pub insert_in_time : BidLogEntry → List BidLogEntry → List BidLogEntry
insert_in_time x [] = x ∷ []
insert_in_time x (y ∷ ys) =
    let rest = insert_in_time x ys in if leb x.ts y.ts then x ∷ y ∷ ys else y ∷ rest

unfoldable pub in_time_order : List BidLogEntry → List BidLogEntry
unfolding insert_in_time
in_time_order [] = []
in_time_order (x ∷ xs) = insert_in_time x (in_time_order xs)

-- `manifest.auctionOwners[e.auctionId] ?? 'unknown'`
unfoldable pub owner_of : ℕ → ℕ → List (ℕ × ℕ) → ℕ
owner_of unknown auction_id [] = unknown
owner_of unknown auction_id ((id, seller_id) ∷ owners) =
    if id == auction_id then seller_id else owner_of unknown auction_id owners

-- `bidCount`, whose key is an auction and a bidder.
unfoldable pub prior_count : ℕ → ℕ → List ((ℕ × ℕ) × ℕ) → ℕ
prior_count auction_id bidder_id [] = 0
prior_count auction_id bidder_id (((a, b), n) ∷ counts) =
    if a == auction_id && b == bidder_id then n else prior_count auction_id bidder_id counts

module _ (spell : ℕ → List ℕ) (unknown : ℕ) (m : Manifest) where
  -- `${manifest.runId}-${e.ts}-${e.bidderId}`
  abbrev pub bid_name : BidLogEntry → List ℕ
  bid_name e = spell m.run_id ++ (45 ∷ (spell e.ts ++ (45 ∷ spell e.bidder_id)))

  -- The graph compares no bid ids, so that the id of the event is left at 0.
  unfoldable pub event_of : BidLogEntry → BidEvent
  unfolding owner_of
  event_of e = record {
    bid_id = 0;
    auction_id = e.auction_id;
    bidder_id = e.bidder_id;
    seller_id = owner_of unknown e.auction_id m.auction_owners;
    amount = e.amount;
    min_increment = m.min_increment;
    ts = e.ts;
    is_auto_bid = false;
  }

  unfoldable pub example_of : BidLogEntry → BidGraph → ℕ → Example
  unfolding event_of
  example_of e g prior = record {
    features = extract_features (event_of e) g;
    is_shill = e.is_shill;
    bid_id = bid_name e;
    run_id = m.run_id;
    auction_id = e.auction_id;
    bidder_bid_count_on_auction = prior + 1;
  }

  -- The loop over the events of a run.
  unfoldable pub replay : List BidLogEntry → BidGraph → List ((ℕ × ℕ) × ℕ) → List Example
  replay [] g counts = []
  replay (e ∷ es) g counts =
      let g' = add_event (event_of e) g in
      let prior = prior_count e.auction_id e.bidder_id counts in
      example_of e g' prior ∷ replay es g' (((e.auction_id, e.bidder_id), prior + 1) ∷ counts)

  -- One run of `loadExamples`: skipped without owners.
  unfoldable pub load_run : List BidLogEntry → List Example
  unfolding in_time_order replay
  load_run events = elim m.auction_owners [
    | [] ↦ []
    | _ ∷ _ ↦ replay (in_time_order events) empty_graph []
  ]
