-- ===== src/Fraud/Graph/Window.antt =====
-- The graph against the plain log of all events: it holds those of the window, no more and no fewer.
use auctionhaus.Prelude.{
  ℕ, ◌≤◌, ◌≡◌, ◌∙◌, sym, ap, refl, Bool, true, ◌&&◌, List, [], ◌∷◌, ◌++◌, ◌==◌, keep, keep-append,
  keep-keep, length, length-append, arith, Bool-cases, inl, inr,
}
use mathlib.Core.List.{append-nil, append_assoc}
use auctionhaus.Fraud.Types.{BidEvent}
use auctionhaus.Fraud.Buckets.{
  Buckets, events_of, events_of-trim, events_of-push, IsMap, IsMap-push, IsMap-trim, push_event,
  trim, count_in, count_in-push, count_in-trim,
}
use auctionhaus.Fraud.Graph.{
  BidGraph, empty_graph, is_recent, prune, add_event, get_auction_bids, get_bidder_history,
  total_bids, graph_stats,
}

abbrev pub is_on : ℕ → BidEvent → Bool
is_on auction_id e = e.auction_id == auction_id

abbrev pub is_by : ℕ → BidEvent → Bool
is_by bidder_id e = e.bidder_id == bidder_id

-- Both maps, and the number of events of any kind, agree with one log.
pub record Mirrors (g : BidGraph) (log : List BidEvent) : Type 0 where
  pub auctions : IsMap g.auction_bids
  pub bidders : IsMap g.bidder_history
  pub by_auction : (a : ℕ) → get_auction_bids a g ≡ keep (is_on a) log
  pub by_bidder : (b : ℕ) → get_bidder_history b g ≡ keep (is_by b) log
  pub counts : (p : BidEvent → Bool) → count_in p g.auction_bids ≡ length (keep p log)

-- The log that a graph mirrors after one more event.
abbrev pub log_add : BidEvent → List BidEvent → List BidEvent
log_add e log = keep (is_recent e.ts) log ++ e ∷ []

keep-swap :
    (p q : BidEvent → Bool) (log : List BidEvent) → keep p (keep q log) ≡ keep q (keep p log)
unfolding keep
keep-swap p q [] = refl
keep-swap p q (x ∷ log) = ground (arith, keep-swap p q log)

-- One of the two maps, under its key.
events_of-add :
    (key_of : BidEvent → ℕ) (e : BidEvent) (bs : Buckets) (log : List BidEvent) (a : ℕ)
    → IsMap bs
    → ((k : ℕ) → events_of k bs ≡ keep (λ x. key_of x == k) log)
    → events_of a (push_event (key_of e) e (trim (is_recent e.ts) bs))
      ≡ keep (λ x. key_of x == a) (log_add e log)
unfolding keep
events_of-add key_of e bs log a m view =
    let old : events_of a (trim (is_recent e.ts) bs)
        ≡ keep (λ x. key_of x == a) (keep (is_recent e.ts) log) =
      events_of-trim (is_recent e.ts) a bs m
      ∙ ap (keep (is_recent e.ts)) (view a)
      ∙ keep-swap (is_recent e.ts) (λ x. key_of x == a) log in
    let pushed = events_of-push (key_of e) a e (trim (is_recent e.ts) bs) in
    let split = keep-append (λ x. key_of x == a) (keep (is_recent e.ts) log) (e ∷ []) in
    elim (Bool-cases (key_of e == a)) [
      | inl hit ↦ rw (pushed, split, old, hit) refl
      | inr miss ↦ rw (pushed, split, old, miss) (sym (append-nil _))
    ]

Mirrors-add :
    (e : BidEvent) (g : BidGraph) (log : List BidEvent)
    → Mirrors g log
    → Mirrors (add_event e g) (log_add e log)
unfolding add_event prune
Mirrors-add e g log m =
    let recent = is_recent e.ts in
    record {
      auctions =
          IsMap-push e.auction_id e (trim recent g.auction_bids) (IsMap-trim recent _ m.auctions);
      bidders =
          IsMap-push e.bidder_id e (trim recent g.bidder_history) (IsMap-trim recent _ m.bidders);
      by_auction =
          λ a. events_of-add (λ x. x.auction_id) e g.auction_bids log a m.auctions m.by_auction;
      by_bidder =
          λ b. events_of-add (λ x. x.bidder_id) e g.bidder_history log b m.bidders m.by_bidder;
      counts = λ p.
          rw
            (
              count_in-push p e.auction_id e (trim recent g.auction_bids),
              count_in-trim p recent g.auction_bids,
              m.counts (λ x. recent x && p x),
              keep-append p (keep recent log) (e ∷ []),
              keep-keep p recent log,
            )
            (sym (length-append (keep (λ x. recent x && p x) log) (keep p (e ∷ []))));
    }

-- The events of the window that ends at a time.
abbrev pub window : ℕ → List BidEvent → List BidEvent
window now = keep (is_recent now)

-- Time does not go back.
abbrev pub IsOrdered : ℕ → List BidEvent → Type 0
IsOrdered t [] = Unit
IsOrdered t (e ∷ es) = (t ≤ e.ts) × IsOrdered e.ts es

abbrev pub last_ts : ℕ → List BidEvent → ℕ
last_ts t [] = t
last_ts t (e ∷ es) = last_ts e.ts es

unfoldable pub add_events : List BidEvent → BidGraph → BidGraph
add_events [] g = g
add_events (e ∷ es) g = add_events es (add_event e g)

keep-agree :
    (p q : BidEvent → Bool) (es : List BidEvent)
    → ((e : BidEvent) → p e ≡ q e)
    → keep p es ≡ keep q es
unfolding keep
keep-agree p q [] h = refl
keep-agree p q (e ∷ es) h = ground (arith, h e, keep-agree p q es h)

keep-itself : (e : BidEvent) → keep (is_recent e.ts) (e ∷ []) ≡ e ∷ []
unfolding keep
keep-itself e = ground arith

-- The window moves on.
window-step :
    (t : ℕ) (e : BidEvent) (seen : List BidEvent)
    → t ≤ e.ts
    → log_add e (window t seen) ≡ window e.ts (seen ++ e ∷ [])
window-step t e seen le =
    let both = keep-keep (is_recent e.ts) (is_recent t) seen in
    let same =
      keep-agree (λ x. is_recent t x && is_recent e.ts x) (is_recent e.ts) seen
        (λ x. ground arith) in
    let itself : keep (is_recent e.ts) (e ∷ []) ≡ e ∷ [] = keep-itself e in
    rw (keep-append (is_recent e.ts) seen (e ∷ []), itself, both, same) refl

add_events-Mirrors :
    (es : List BidEvent) (t : ℕ) (g : BidGraph) (seen : List BidEvent)
    → IsOrdered t es
    → Mirrors g (window t seen)
    → Mirrors (add_events es g) (window (last_ts t es) (seen ++ es))
unfolding add_events
add_events-Mirrors [] t g seen o m = rw (append-nil seen) m
add_events-Mirrors (e ∷ es) t g seen o m = rw (append_assoc seen (e ∷ []) es) at (
    add_events-Mirrors es e.ts (add_event e g) (seen ++ e ∷ []) o.1
      (rw (window-step t e seen o.0) at (Mirrors-add e g (window t seen) m)))

keep-true : (es : List BidEvent) → keep (λ e. true) es ≡ es
unfolding keep
keep-true [] = refl
keep-true (e ∷ es) = ap (λ l. e ∷ l) (keep-true es)

total_bids-count : (bs : Buckets) → total_bids bs ≡ count_in (λ e. true) bs
unfolding total_bids count_in
total_bids-count [] = refl
total_bids-count (b ∷ bs) = rw (keep-true b.events) (omega (arith, total_bids-count bs))

empty-Mirrors : (t : ℕ) → Mirrors empty_graph (window t [])
unfolding keep events_of count_in
empty-Mirrors t = record {
  auctions = tt;
  bidders = tt;
  by_auction = λ a. refl;
  by_bidder = λ b. refl;
  counts = λ p. refl;
}

-- The graph of some events, as it is after the last of them.
abbrev pub graph_of : List BidEvent → BidGraph
graph_of es = add_events es empty_graph

graph_of-Mirrors :
    (es : List BidEvent) → IsOrdered 0 es → Mirrors (graph_of es) (window (last_ts 0 es) es)
graph_of-Mirrors es o = add_events-Mirrors es 0 empty_graph [] o (empty-Mirrors 0)

-- After events whose times do not go back, the graph answers for each auction and for each bidder
-- with exactly those events of theirs that lie in the half hour up to the last event, in order; and
-- the number of bids that it reports is the number of events in that half hour.
pub graph_of-window :
    (es : List BidEvent)
    → IsOrdered 0 es
    → ((a : ℕ) → get_auction_bids a (graph_of es) ≡ keep (is_on a) (window (last_ts 0 es) es))
      × ((b : ℕ) → get_bidder_history b (graph_of es) ≡ keep (is_by b) (window (last_ts 0 es) es))
      × ((graph_stats (graph_of es)).bids ≡ length (window (last_ts 0 es) es))
unfolding graph_stats
graph_of-window es o =
    let m = graph_of-Mirrors es o in
    let log = window (last_ts 0 es) es in
    (
      m.by_auction,
      m.by_bidder,
      total_bids-count (graph_of es).auction_bids
          ∙ m.counts (λ e. true)
          ∙ ap length (keep-true log),
    )
