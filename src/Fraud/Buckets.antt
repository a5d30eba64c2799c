-- ===== src/Fraud/Buckets.antt =====
-- A `Map` from an id to a list of events, as an association list: what
-- back/src/modules/fraud/fraud.graph.ts does with its two maps.
use auctionhaus.Prelude.{
  ℕ, ◌+◌, ◌≡◌, ◌≢◌, refl, Bool, ◌&&◌, List, [], ◌∷◌, ◌++◌, ◌==◌, if◌then◌else◌, keep, keep-append,
  keep-keep, length, length-append, All, Bool-cases, inl, inr, arith, ==→eq,
}
use auctionhaus.Fraud.Types.{BidEvent}

pub record Bucket : Type 0 where
  pub key : ℕ
  pub events : List BidEvent

abbrev pub Buckets : Type 0
Buckets = List Bucket

-- `map.get(key) ?? []`
unfoldable pub events_of : ℕ → Buckets → List BidEvent
events_of key [] = []
events_of key (b ∷ bs) = if b.key == key then b.events else events_of key bs

-- `if (!map.has(key)) map.set(key, [])`, then `map.get(key)!.push(event)`.
unfoldable pub push_event : ℕ → BidEvent → Buckets → Buckets
push_event key e [] = record { key = key; events = e ∷ [] } ∷ []
push_event key e (b ∷ bs) =
    let rest = push_event key e bs in
    if b.key == key then record b { events = b.events ++ e ∷ [] } ∷ bs else b ∷ rest

-- Each list is filtered, and one that is left empty goes.
unfoldable pub trim : (BidEvent → Bool) → Buckets → Buckets
unfolding keep
trim p [] = []
trim p (b ∷ bs) =
    let rest = trim p bs in
    elim (keep p b.events) [ [] ↦ rest | e ∷ es ↦ record b { events = e ∷ es } ∷ rest ]

-- Keys are distinct.
abbrev pub IsMap : Buckets → Type 0
IsMap [] = Unit
IsMap (b ∷ bs) = All (λ c. c.key ≢ b.key) bs × IsMap bs

events_of-none : (key : ℕ) (bs : Buckets) → All (λ c. c.key ≢ key) bs → events_of key bs ≡ []
unfolding events_of
events_of-none key [] h = refl
events_of-none key (b ∷ bs) h = ground (arith, events_of-none key bs)

pub events_of-trim :
    (p : BidEvent → Bool) (key : ℕ) (bs : Buckets)
    → IsMap bs
    → events_of key (trim p bs) ≡ keep p (events_of key bs)
unfolding events_of trim keep
events_of-trim p key [] h = refl
events_of-trim p key (b ∷ bs) h =
    let rest = events_of-trim p key bs h.1 in
    let none_left : b.key ≡ key → events_of key bs ≡ [] =
      λ e. rw e at (events_of-none b.key bs h.0) in
    elim (Bool-cases (b.key == key)) [
      | inl hit ↦ ground (arith, none_left (==→eq b.key key hit))
      | inr miss ↦ ground arith
    ]

pub events_of-push :
    (key other : ℕ) (e : BidEvent) (bs : Buckets)
    → events_of other (push_event key e bs)
      ≡ (if key == other then events_of other bs ++ e ∷ [] else events_of other bs)
unfolding events_of push_event
events_of-push key other e [] = ground arith
events_of-push key other e (b ∷ bs) = ground (arith, events_of-push key other e bs)

All-push :
    (key other : ℕ) (e : BidEvent) (bs : Buckets)
    → key ≢ other
    → All (λ c. c.key ≢ other) bs
    → All (λ c. c.key ≢ other) (push_event key e bs)
unfolding push_event
All-push key other e [] apart h = (apart, tt)
All-push key other e (b ∷ bs) apart h = ground (arith, All-push key other e bs)

pub IsMap-push : (key : ℕ) (e : BidEvent) (bs : Buckets) → IsMap bs → IsMap (push_event key e bs)
unfolding push_event
IsMap-push key e [] h = (tt, tt)
IsMap-push key e (b ∷ bs) h = elim (Bool-cases (b.key == key)) [
  | inl hit ↦ rw hit h
  | inr miss ↦ rw miss (All-push key b.key e bs (λ eq. ground arith) h.0, IsMap-push key e bs h.1)
]

All-trim :
    (p : BidEvent → Bool) (other : ℕ) (bs : Buckets)
    → All (λ c. c.key ≢ other) bs
    → All (λ c. c.key ≢ other) (trim p bs)
unfolding trim
All-trim p other [] h = tt
All-trim p other (b ∷ bs) h = ground (arith, All-trim p other bs)

pub IsMap-trim : (p : BidEvent → Bool) (bs : Buckets) → IsMap bs → IsMap (trim p bs)
unfolding trim
IsMap-trim p [] h = tt
IsMap-trim p (b ∷ bs) h = ground (arith, IsMap-trim p bs, All-trim p b.key bs)

-- How many events of a kind are in all the lists.
unfoldable pub count_in : (BidEvent → Bool) → Buckets → ℕ
unfolding keep
count_in p [] = 0
count_in p (b ∷ bs) = length (keep p b.events) + count_in p bs

pub count_in-push :
    (p : BidEvent → Bool) (key : ℕ) (e : BidEvent) (bs : Buckets)
    → count_in p (push_event key e bs) ≡ count_in p bs + length (keep p (e ∷ []))
unfolding count_in push_event
count_in-push p key e [] = omega arith
count_in-push p key e (b ∷ bs) = ground (
  arith,
  count_in-push p key e bs,
  keep-append p b.events (e ∷ []),
  length-append (keep p b.events) (keep p (e ∷ [])),
)

count_in-kept :
    (p : BidEvent → Bool) (b : Bucket) (es : List BidEvent) (rest : Buckets)
    → count_in p (elim es [ [] ↦ rest | x ∷ xs ↦ record b { events = x ∷ xs } ∷ rest ])
      ≡ length (keep p es) + count_in p rest
unfolding count_in
count_in-kept p b [] rest = omega arith
count_in-kept p b (x ∷ xs) rest = refl

pub count_in-trim :
    (p q : BidEvent → Bool) (bs : Buckets) → count_in p (trim q bs) ≡ count_in (λ x. q x && p x) bs
unfolding count_in trim
count_in-trim p q [] = refl
count_in-trim p q (b ∷ bs) =
    rw (← keep-keep p q b.events, ← count_in-trim p q bs)
      (count_in-kept p b (keep q b.events) (trim q bs))
