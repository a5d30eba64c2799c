-- ===== src/Simulator/Dataset/Sorted.antt =====
-- What the sort of the events does: `events.sort` of packages/simulator/src/dataset.ts.
use auctionhaus.Prelude.{
  ℕ, ◌≡◌, ◌≤◌, refl, Bool-cases, inl, inr, List, [], ◌∷◌, All, keep, ◌==◌, leb, arith,
}
use auctionhaus.Simulator.Run.{BidLogEntry}
use auctionhaus.Simulator.Dataset.{insert_in_time, in_time_order}

-- No entry is later than one that stands after it.
abbrev pub IsInTimeOrder : List BidLogEntry → Type 0
IsInTimeOrder [] = Unit
IsInTimeOrder (e ∷ es) = All (λ (x : BidLogEntry). e.ts ≤ x.ts) es × IsInTimeOrder es

All-later :
    (s t : ℕ) (es : List BidLogEntry)
    → s ≤ t
    → All (λ (x : BidLogEntry). t ≤ x.ts) es
    → All (λ (x : BidLogEntry). s ≤ x.ts) es
All-later s t [] le h = tt
All-later s t (e ∷ es) le h = (omega (arith, le, h.0), All-later s t es le h.1)

All-insert :
    (t : ℕ) (e : BidLogEntry) (es : List BidLogEntry)
    → t ≤ e.ts
    → All (λ (x : BidLogEntry). t ≤ x.ts) es
    → All (λ (x : BidLogEntry). t ≤ x.ts) (insert_in_time e es)
unfolding insert_in_time
All-insert t e [] le h = (le, tt)
All-insert t e (y ∷ ys) le h = elim (Bool-cases (leb e.ts y.ts)) [
  | inl first ↦ rw first (le, h)
  | inr after ↦ rw after (h.0, All-insert t e ys le h.1)
]

insert-IsInTimeOrder :
    (e : BidLogEntry) (es : List BidLogEntry)
    → IsInTimeOrder es
    → IsInTimeOrder (insert_in_time e es)
unfolding insert_in_time
insert-IsInTimeOrder e [] h = (tt, tt)
insert-IsInTimeOrder e (y ∷ ys) h = elim (Bool-cases (leb e.ts y.ts)) [
  | inl first ↦
      let le : e.ts ≤ y.ts = ground arith in rw first ((le, All-later e.ts y.ts ys le h.0), h)
  | inr after ↦
      let le : y.ts ≤ e.ts = ground arith in
      rw after (All-insert y.ts e ys le h.0, insert-IsInTimeOrder e ys h.1)
]

pub in_time_order-IsInTimeOrder : (es : List BidLogEntry) → IsInTimeOrder (in_time_order es)
unfolding in_time_order
in_time_order-IsInTimeOrder [] = tt
in_time_order-IsInTimeOrder (e ∷ es) =
    insert-IsInTimeOrder e (in_time_order es) (in_time_order-IsInTimeOrder es)

-- The entries of one time.
abbrev pub at_time : ℕ → List BidLogEntry → List BidLogEntry
at_time t es = keep (λ (e : BidLogEntry). e.ts == t) es

at_time-insert :
    (t : ℕ) (e : BidLogEntry) (es : List BidLogEntry)
    → at_time t (insert_in_time e es) ≡ at_time t (e ∷ es)
unfolding insert_in_time keep
at_time-insert t e [] = refl
at_time-insert t e (y ∷ ys) = ground (arith, at_time-insert t e ys)

-- The entries of each time are those of the file, in the file's order.
pub at_time-in_time_order :
    (t : ℕ) (es : List BidLogEntry) → at_time t (in_time_order es) ≡ at_time t es
unfolding in_time_order keep
at_time-in_time_order t [] = refl
at_time-in_time_order t (e ∷ es) =
    ground (arith, at_time-insert t e (in_time_order es), at_time-in_time_order t es)
