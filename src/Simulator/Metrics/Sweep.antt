-- ===== src/Simulator/Metrics/Sweep.antt =====
-- The sweep of thresholds.
use auctionhaus.Prelude.{
  ℕ, ◌+◌, ◌≤◌, ◌≡◌, refl, Bool, true, false, List, [], ◌∷◌, length, keep, arith,
}
use auctionhaus.Simulator.Metrics.{
  Counts, no_counts, tally, count_from, quotient, metrics_from, at_threshold,
}
use auctionhaus.Simulator.Metrics.Confusion.{count_from-size}

-- A lower threshold raises no fewer alarms.
tally_mono :
    (label p q : Bool) (c d : Counts)
    → (q ≡ true → p ≡ true)
    → d.tp ≤ c.tp
    → d.fp ≤ c.fp
    → ((tally label q d).tp ≤ (tally label p c).tp) × ((tally label q d).fp ≤ (tally label p c).fp)
tally_mono true true true c d lower h k = ground arith
tally_mono true true false c d lower h k = ground arith
tally_mono true false true c d lower h k = cc (lower refl)
tally_mono true false false c d lower h k = (h, k)
tally_mono false true true c d lower h k = ground arith
tally_mono false true false c d lower h k = ground arith
tally_mono false false true c d lower h k = cc (lower refl)
tally_mono false false false c d lower h k = (h, k)

quotient_mono : (x y m n : ℕ) → x ≤ y → m ≡ n → (quotient x m).num ≤ (quotient y n).num
quotient_mono x y m n h e = rw e (ground arith)

quotient-den : (x y m n : ℕ) → m ≡ n → (quotient x m).den ≡ (quotient y n).den
quotient-den x y m n e = rw e (ground arith)

module _ {A : Type 0} (leb_score : A → A → Bool) (t u : A) where
  count_from_mono :
      ((s : A) → leb_score u s ≡ true → leb_score t s ≡ true)
      → (c d : Counts) (ss : List (Bool × A)) → d.tp ≤ c.tp
      → d.fp ≤ c.fp
      → ((count_from d (at_threshold leb_score u ss)).tp
          ≤ (count_from c (at_threshold leb_score t ss)).tp)
        × ((count_from d (at_threshold leb_score u ss)).fp
            ≤ (count_from c (at_threshold leb_score t ss)).fp)
  unfolding count_from at_threshold
  count_from_mono lower c d [] h k = (h, k)
  count_from_mono lower c d ((label, score) ∷ ss) h k =
      let old = lower score in
      let rest =
        count_from_mono lower (tally label (leb_score t score) c)
          (tally label (leb_score u score) d) ss in
      let (tp, fp) =
        tally_mono label (leb_score t score) (leb_score u score) c d (lower score) h k in
      rest tp fp

  labels_at :
      (ss : List (Bool × A))
      → (length (keep (λ s. s.is_shill) (at_threshold leb_score u ss))
          ≡ length (keep (λ s. s.is_shill) (at_threshold leb_score t ss)))
        × (length (at_threshold leb_score u ss) ≡ length (at_threshold leb_score t ss))
  unfolding keep at_threshold
  labels_at [] = (refl, refl)
  labels_at ((label, score) ∷ ss) =
      let (shills, size) = labels_at ss in (ground arith, ground arith)

  -- Where every score that reaches `u` reaches `t` too, the point of the ROC at `t` lies nowhere below
  -- or left of the one at `u`: the rates of true and of false positives have the same denominators at
  -- both, and numerators at `t` that are at least those at `u`.
  roc_mono :
      ((s : A) → leb_score u s ≡ true → leb_score t s ≡ true)
      → (ss : List (Bool × A))
      → let m = metrics_from (at_threshold leb_score t ss) in
        let n = metrics_from (at_threshold leb_score u ss) in
        (n.tpr.num ≤ m.tpr.num)
        × (n.tpr.den ≡ m.tpr.den)
        × (n.fpr.num ≤ m.fpr.num)
        × (n.fpr.den ≡ m.fpr.den)
  unfolding metrics_from
  roc_mono lower ss =
      let c = count_from no_counts (at_threshold leb_score t ss) in
      let d = count_from no_counts (at_threshold leb_score u ss) in
      let (tp, fp) = count_from_mono lower no_counts no_counts ss (omega arith) (omega arith) in
      let (all, shills, _) = count_from-size no_counts (at_threshold leb_score t ss) in
      let (all', shills', _) = count_from-size no_counts (at_threshold leb_score u ss) in
      let (same_shills, same_size) = labels_at ss in
      let positives : d.tp + d.fn ≡ c.tp + c.fn = omega (arith, shills, shills', same_shills) in
      let negatives : d.fp + d.tn ≡ c.fp + c.tn =
        omega (arith, shills, shills', same_shills, all, all', same_size) in
      (
        quotient_mono d.tp c.tp (d.tp + d.fn) (c.tp + c.fn) tp positives,
        quotient-den d.tp c.tp (d.tp + d.fn) (c.tp + c.fn) positives,
        quotient_mono d.fp c.fp (d.fp + d.tn) (c.fp + c.tn) fp negatives,
        quotient-den d.fp c.fp (d.fp + d.tn) (c.fp + c.tn) negatives,
      )
