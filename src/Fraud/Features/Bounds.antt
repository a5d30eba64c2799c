-- ===== src/Fraud/Features/Bounds.antt =====
-- What the features of an event can be, where the graph has seen its events in order.
use mathlib.Core.Path.{subst}
use mathlib.Core.List.{reverse-cons}
use auctionhaus.Prelude.{
  Bool-cases, ◌==◌, ℕ, ◌+◌, ◌≤◌, ◌≡◌, refl, Bool, some, Option-cases, inl, inr, List, [], ◌∷◌, ◌++◌,
  reverse, pos, ◌≤ℤ◌, ◌-ℤ◌, keep, All, arith, int_laws,
}
use auctionhaus.Fraud.Types.{BidEvent}
use auctionhaus.Fraud.Graph.{window_ms, is_recent, last_other, get_auction_bids, get_bidder_history}
use auctionhaus.Fraud.Graph.Window.{
  IsOrdered, last_ts, window, graph_of, graph_of-window, is_on, is_by,
}
use auctionhaus.Fraud.Graph.Bounds.{IsFraction, reciprocity_score-IsFraction, co_occurrence-le}
use auctionhaus.Fraud.Features.{response_time, extract_features}

-- Within the half hour up to a time.
abbrev pub IsWithin : ℕ → BidEvent → Type 0
IsWithin now e = (e.ts ≤ now) × (now ≤ e.ts + window_ms)

All-append :
    (P : BidEvent → Type 0) (xs ys : List BidEvent) → All P xs → All P ys → All P (xs ++ ys)
All-append P [] ys h k = k
All-append P (x ∷ xs) ys h k = (h.0, All-append P xs ys h.1 k)

All-keep :
    (P : BidEvent → Type 0) (p : BidEvent → Bool) (es : List BidEvent)
    → All P es
    → All P (keep p es)
unfolding keep
All-keep P p [] h = tt
All-keep P p (e ∷ es) h = ground (arith, All-keep P p es)

ordered-below :
    (t : ℕ) (es : List BidEvent)
    → IsOrdered t es
    → (t ≤ last_ts t es) × All (λ e. e.ts ≤ last_ts t es) es
ordered-below t [] o = (omega arith, tt)
ordered-below t (e ∷ es) o =
    let (first, rest) = ordered-below e.ts es o.1 in (omega (arith, first, o.0), (first, rest))

window-IsWithin :
    (now : ℕ) (es : List BidEvent) → All (λ e. e.ts ≤ now) es → All (IsWithin now) (window now es)
unfolding keep
window-IsWithin now [] h = tt
window-IsWithin now (e ∷ es) h = ground (arith, window-IsWithin now es h.1)

last_other-All :
    (P : BidEvent → Type 0) (uid : ℕ) (es : List BidEvent) (prev : BidEvent)
    → All P es
    → last_other uid es ≡ some prev
    → P prev
unfolding last_other
last_other-All P uid [] prev h e = cc
last_other-All P uid (x ∷ es) prev h e = elim (Bool-cases (x.bidder_id == uid)) [
  | inl own ↦ last_other-All P uid es prev h.1 (ground arith)
  | inr other ↦ let same : x ≡ prev = ground arith in subst P same h.0
]

All-reverse : (P : BidEvent → Type 0) (es : List BidEvent) → All P es → All P (reverse es)
All-reverse P [] h = tt
All-reverse P (e ∷ es) h =
    rw (reverse-cons e es) (All-append P (reverse es) (e ∷ []) (All-reverse P es h.1) (h.0, tt))

response_time-bounds :
    (e : BidEvent) (bids : List BidEvent)
    → All (IsWithin e.ts) bids
    → (pos 0 ≤ℤ response_time e bids) × (response_time e bids ≤ℤ pos window_ms)
unfolding response_time
response_time-bounds e bids h = elim (Option-cases (last_other e.bidder_id (reverse bids))) [
  | inl nobody ↦
      let default : response_time e bids ≡ pos 8000 = ground arith in
      rw default (omega arith, omega arith)
  | inr (prev, found) ↦
      let near =
        last_other-All (IsWithin e.ts) e.bidder_id (reverse bids) prev (All-reverse _ bids h)
          found in
      let gap : response_time e bids ≡ pos e.ts -ℤ pos prev.ts = ground arith in
      rw gap (omega (int_laws, near.0, near.1), omega (int_laws, near.0, near.1))
]

keep-All : (now : ℕ) (es : List BidEvent) → All (IsWithin now) es → keep (is_recent now) es ≡ es
unfolding keep
keep-All now [] h = refl
keep-All now (e ∷ es) h = ground (arith, keep-All now es h.1)

-- After events whose times do not go back, the features of an event at the time of the last one are
-- in their ranges: the response time is between nothing and the half hour, the reciprocity is a
-- fraction between zero and one, and the bidder is with the seller in no more auctions than the bids
-- that the frequency counts.
pub extract_features-bounds :
    (es : List BidEvent) (e : BidEvent)
    → IsOrdered 0 es
    → last_ts 0 es ≡ e.ts
    → let f = extract_features e (graph_of es) in
      (pos 0 ≤ℤ f.response_time_ms)
      × (f.response_time_ms ≤ℤ pos window_ms)
      × IsFraction f.reciprocity_score
      × (pos f.seller_co_occurrence ≤ℤ f.bid_frequency_per_min.num)
unfolding extract_features
extract_features-bounds es e o at =
    let (auctions, bidders, _) = graph_of-window es o in
    let near : All (IsWithin e.ts) (window e.ts es) =
      window-IsWithin e.ts es (rw at at (ordered-below 0 es o).1) in
    let on : All (IsWithin e.ts) (get_auction_bids e.auction_id (graph_of es)) =
      rw (auctions e.auction_id, at)
        (All-keep (IsWithin e.ts) (is_on e.auction_id) (window e.ts es) near) in
    let by : All (IsWithin e.ts) (get_bidder_history e.bidder_id (graph_of es)) =
      rw (bidders e.bidder_id, at)
        (All-keep (IsWithin e.ts) (is_by e.bidder_id) (window e.ts es) near) in
    let (low, high) = response_time-bounds e (get_auction_bids e.auction_id (graph_of es)) on in
    (
      low,
      high,
      reciprocity_score-IsFraction e.auction_id (graph_of es),
      rw (keep-All e.ts _ by)
          (omega (arith, co_occurrence-le e.bidder_id e.seller_id (graph_of es))),
    )
