-- ===== src/Fraud/Engine.antt =====
-- `FraudEngine` of back/src/modules/fraud/fraud.engine.ts. The time that the scoring took is an input;
-- the id of a flag is a number of the caller's; a row that cannot be written is only logged, so a
-- flag stands for the attempt.
pub mod Run
mod Tests
use auctionhaus.Prelude.{ℕ, Bool, true, false, List, [], ◌∷◌, if◌then◌else◌}
use auctionhaus.Fraud.Types.{BidEvent, FeatureVector}
use auctionhaus.Fraud.Ring.{LatencyRing, Snapshot, fresh_ring, add_sample, snapshot}
use auctionhaus.Fraud.Graph.{BidGraph, GraphStats, empty_graph, add_event, graph_stats}
use auctionhaus.Fraud.Features.{extract_features}
use auctionhaus.Fraud.Classifier.{Floats, Reason, score, score_threshold, explain}

abbrev pub reservoir_size : ℕ
reservoir_size = 1024

pub record FraudFlag : Type 0 where
  pub bid_id : ℕ
  pub bidder_id : ℕ
  pub auction_id : ℕ
  pub ts : ℕ
  pub amount : ℕ
  pub features : FeatureVector
  pub reasons : List Reason

-- `emitted` are the flags sent to the admin room, `stored` those written, the last one first.
pub record Engine : Type 0 where
  pub graph : BidGraph
  pub has_io : Bool
  pub latency : LatencyRing
  pub emitted : List FraudFlag
  pub stored : List FraudFlag

unfoldable pub new_engine : Engine
new_engine = record {
  graph = empty_graph;
  has_io = false;
  latency = fresh_ring reservoir_size;
  emitted = [];
  stored = [];
}

-- `init(io)`
unfoldable pub init_engine : Engine → Engine
init_engine g = record g { has_io = true }

module _ (F : Floats) where
  abbrev pub flag_of : BidEvent → FeatureVector → FraudFlag
  flag_of e f = record {
    bid_id = e.bid_id;
    bidder_id = e.bidder_id;
    auction_id = e.auction_id;
    ts = e.ts;
    amount = e.amount;
    features = f;
    reasons = explain F f;
  }

  -- `fraudScore < SCORE_THRESHOLD`
  unfoldable pub is_clear : FeatureVector → Bool
  is_clear f = F.less (score F f) (score_threshold F)

  -- `onBid(event)`
  unfoldable pub on_bid : BidEvent → ℕ → Engine → Engine
  unfolding is_clear
  on_bid e elapsed g =
      let graph = add_event e g.graph in
      let features = extract_features e graph in
      let timed = record g {
        graph = graph;
        latency = add_sample reservoir_size elapsed g.latency;
      } in
      if is_clear features then timed else record timed {
        emitted = if g.has_io then flag_of e features ∷ g.emitted else g.emitted;
        stored = flag_of e features ∷ g.stored;
      }

-- `reset()`
unfoldable pub reset_engine : Engine → Engine
reset_engine g = record g { graph = empty_graph; latency = fresh_ring reservoir_size }

-- `resetPerf()`
unfoldable pub reset_perf : Engine → Engine
reset_perf g = record g { latency = fresh_ring reservoir_size }

pub record PerfStats : Type 0 where
  pub latency : Snapshot
  pub graph : GraphStats

-- `perfStats()`, without the threshold.
unfoldable pub perf_stats : Engine → PerfStats
perf_stats g = record { latency = snapshot reservoir_size g.latency; graph = graph_stats g.graph }
