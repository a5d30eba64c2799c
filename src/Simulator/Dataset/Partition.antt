-- ===== src/Simulator/Dataset/Partition.antt =====
-- The split holds out what it says.
use auctionhaus.Prelude.{
  ℕ, ◌+◌, ◌≡◌, ◌≢◌, refl, Bool, true, not, Bool-cases, inl, inr, List, [], ◌∷◌, All, length, keep,
  arith,
}
use auctionhaus.Simulator.Dataset.{Example, is_test, split_train_test}

-- Both parts in the order of the examples, each with those that the hash puts there.
split_train_test-keep :
    (fifths : ℕ) (es : List Example)
    → ((split_train_test fifths es).train ≡ keep (λ e. not (is_test fifths e)) es)
      × ((split_train_test fifths es).test ≡ keep (is_test fifths) es)
unfolding split_train_test keep
split_train_test-keep fifths [] = (refl, refl)
split_train_test-keep fifths (e ∷ es) =
    let (train, test) = split_train_test-keep fifths es in (ground arith, ground arith)

All-keep : (p : Example → Bool) (es : List Example) → All (λ e. p e ≡ true) (keep p es)
unfolding keep
All-keep p [] = tt
All-keep p (e ∷ es) = elim (Bool-cases (p e)) [
  | inl passes ↦ rw (passes, keep) (passes, All-keep p es)
  | inr fails ↦ rw (fails, keep) (All-keep p es)
]

length-split :
    (p : Example → Bool) (es : List Example)
    → length (keep (λ e. not (p e)) es) + length (keep p es) ≡ length es
unfolding keep
length-split p [] = omega arith
length-split p (e ∷ es) = ground (arith, length-split p es)

-- The side is that of the name alone.
is_test-name :
    (fifths : ℕ) (d e : Example) → d.bid_id ≡ e.bid_id → is_test fifths d ≡ is_test fifths e
unfolding is_test
is_test-name fifths d e same = rw same refl

-- No two examples with one bid id lie on both sides.
abbrev Apart : List Example → List Example → Type 0
Apart train test = All (λ d. All (λ e. d.bid_id ≢ e.bid_id) test) train

Apart_lem :
    (fifths : ℕ) (train test : List Example)
    → All (λ d. not (is_test fifths d) ≡ true) train
    → All (λ e. is_test fifths e ≡ true) test
    → Apart train test
Apart_lem fifths [] test h k = tt
Apart_lem fifths (d ∷ train) test h k = (from_one test k, Apart_lem fifths train test h.1 k)
  where
    from_one :
        (test : List Example)
        → All (λ e. is_test fifths e ≡ true) test
        → All (λ e. d.bid_id ≢ e.bid_id) test
    from_one [] k = tt
    from_one (e ∷ es) k =
        ((λ same. ground (arith, is_test-name fifths d e same, h.0, k.0)), from_one es k.1)

-- The split of two lists of examples, which may be loaded by two programs: each has every example of its
-- list in one of the two parts, and no bid id of the one's training part is in the other's test part.
split_train_test-Apart :
    (fifths : ℕ) (ds es : List Example)
    → (length (split_train_test fifths ds).train + length (split_train_test fifths ds).test
        ≡ length ds)
      × Apart (split_train_test fifths ds).train (split_train_test fifths es).test
split_train_test-Apart fifths ds es =
    let (train, test) = split_train_test-keep fifths ds in
    let (_, held_out) = split_train_test-keep fifths es in
    (
      rw (train, test) (length-split (is_test fifths) ds),
      rw (train, held_out)
          (Apart_lem fifths _ _ (All-keep (λ e. not (is_test fifths e)) ds)
            (All-keep (is_test fifths) es)),
    )
