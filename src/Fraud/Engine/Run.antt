-- ===== src/Fraud/Engine/Run.antt =====
-- The engine over a run of bids: what it reports, and which bids it flags.
use auctionhaus.Prelude.{
  ℕ, ◌+◌, ◌≤◌, ◌≡◌, ◌∙◌, refl, true, Bool-cases, inl, inr, List, [], ◌∷◌, ◌++◌, map, length, min,
  arith,
}
use auctionhaus.Fraud.Types.{BidEvent}
use auctionhaus.Fraud.Ring.{add_sample}
use auctionhaus.Fraud.Ring.Window.{add_all, report, snapshot-recent}
use auctionhaus.Fraud.Graph.{add_event}
use auctionhaus.Fraud.Graph.Window.{IsOrdered, last_ts, window, add_events, graph_of-window}
use auctionhaus.Fraud.Features.{extract_features}
use auctionhaus.Fraud.Classifier.{Floats}
use auctionhaus.Fraud.Engine.{
  Engine, reservoir_size, init_engine, new_engine, is_clear, on_bid, perf_stats,
}

-- A bid with the time that its scoring took.
pub record Timed : Type 0 where
  pub event : BidEvent
  pub elapsed : ℕ

module _ (F : Floats) where
  unfoldable pub on_bids : List Timed → Engine → Engine
  on_bids [] g = g
  on_bids (t ∷ ts) g = on_bids ts (on_bid F t.event t.elapsed g)

  on_bid-parts :
      (e : BidEvent) (elapsed : ℕ) (g : Engine)
      → ((on_bid F e elapsed g).graph ≡ add_event e g.graph)
        × ((on_bid F e elapsed g).latency ≡ add_sample reservoir_size elapsed g.latency)
        × ((on_bid F e elapsed g).has_io ≡ g.has_io)
  unfolding on_bid
  on_bid-parts e elapsed g =
      elim (Bool-cases (is_clear F (extract_features e (add_event e g.graph)))) [
        | inl clear ↦ rw (clear, on_bid) (refl, refl, refl)
        | inr suspect ↦ rw (suspect, on_bid) (refl, refl, refl)
      ]

  on_bids-parts :
      (ts : List Timed) (g : Engine)
      → ((on_bids ts g).graph ≡ add_events (map (λ t. t.event) ts) g.graph)
        × ((on_bids ts g).latency ≡ add_all reservoir_size (map (λ t. t.elapsed) ts) g.latency)
  unfolding on_bids add_events add_all
  on_bids-parts [] g = (refl, refl)
  on_bids-parts (t ∷ ts) g =
      let (graph, latency) = on_bids-parts ts (on_bid F t.event t.elapsed g) in
      let (first, sample, _) = on_bid-parts t.event t.elapsed g in
      (rw (graph, first) refl, rw (latency, sample) refl)

  -- The flags that were sent are those that were written, and no bid has two.
  on_bid-flags :
      (e : BidEvent) (elapsed : ℕ) (g : Engine)
      → g.has_io ≡ true
      → g.emitted ≡ g.stored
      → ((on_bid F e elapsed g).emitted ≡ (on_bid F e elapsed g).stored)
        × (length (on_bid F e elapsed g).stored ≤ length g.stored + 1)
  unfolding on_bid
  on_bid-flags e elapsed g io same =
      elim (Bool-cases (is_clear F (extract_features e (add_event e g.graph)))) [
        | inl clear ↦ (ground arith, ground arith)
        | inr suspect ↦ (ground arith, ground arith)
      ]

  on_bids-flags :
      (ts : List Timed) (g : Engine)
      → g.has_io ≡ true
      → g.emitted ≡ g.stored
      → ((on_bids ts g).emitted ≡ (on_bids ts g).stored)
        × (length (on_bids ts g).stored ≤ length g.stored + length ts)
  unfolding on_bids
  on_bids-flags [] g io same = (same, omega arith)
  on_bids-flags (t ∷ ts) g io same =
      let (_, _, kept) = on_bid-parts t.event t.elapsed g in
      let (still, one) = on_bid-flags t.event t.elapsed g io same in
      let (all, count) = on_bids-flags ts (on_bid F t.event t.elapsed g) (kept ∙ io) still in
      (all, omega (arith, one, count))

  -- After a run of bids whose times do not go back, on an engine that was initialised, the statistics
  -- report the figures of the most recent times that scoring took, 1024 at most, with the number of
  -- all bids, and as many bids in the graph as lie in the half hour up to the last; and the flags sent
  -- to the admin room are those written, at most one for each bid.
  perf_stats-run :
      (ts : List Timed)
      → IsOrdered 0 (map (λ t. t.event) ts)
      → let g = on_bids ts (init_engine new_engine) in
        let times = map (λ t. t.elapsed) ts in
        let events = map (λ t. t.event) ts in
        ((dropped : List ℕ) × (recent : List ℕ) × (times ≡ dropped ++ recent)
          × (length recent ≡ min reservoir_size (length times))
          × ((perf_stats g).latency ≡ report recent (length times)))
        × ((perf_stats g).graph.bids ≡ length (window (last_ts 0 events) events))
        × (g.emitted ≡ g.stored)
        × (length g.stored ≤ length ts)
  unfolding perf_stats new_engine init_engine
  perf_stats-run ts o =
      let g = init_engine new_engine in
      let (graph, latency) = on_bids-parts ts g in
      let (same, count) = on_bids-flags ts g refl refl in
      let (dropped, recent, suffix, size, figures) =
        snapshot-recent 1023 (map (λ t. t.elapsed) ts) in
      let (_, _, bids) = graph_of-window (map (λ t. t.event) ts) o in
      (
        (dropped, recent, suffix, size, rw latency figures),
        rw graph bids,
        same,
        omega (arith, count),
      )
