-- ===== src/Simulator/Metrics/Confusion.antt =====
-- The four counts, and what is made of them.
use auctionhaus.Prelude.{
  Bool-cases, inl, inr, ◌<◌, ℕ, ◌+◌, ◌*◌, ◌≤◌, ◌≡◌, ap, refl, List, [], ◌∷◌, length, keep, ltb,
  arith,
}
use auctionhaus.Simulator.Metrics.{
  Scored, Counts, no_counts, tally, count_from, Fraction, quotient, precision_of, recall_of, f1_of,
  metrics_from,
}

-- How many of the examples there are, and how many are shills.
pub count_from-size :
    (c : Counts) (ss : List Scored)
    → let d = count_from c ss in
      (d.tp + d.fp + d.tn + d.fn ≡ c.tp + c.fp + c.tn + c.fn + length ss)
      × (d.tp + d.fn ≡ c.tp + c.fn + length (keep (λ s. s.is_shill) ss))
      × (d.tp + d.fp ≡ c.tp + c.fp + length (keep (λ s. s.pred) ss))
unfolding count_from keep
count_from-size c [] = (omega arith, omega arith, omega arith)
count_from-size c (s ∷ ss) = ground (arith, count_from-size (tally s.is_shill s.pred c) ss)

f1_lem :
    (tp fp fn : ℕ) → 2 * (tp * tp) * (2 * tp + fp + fn) ≡ 2 * tp * (tp * (tp + fn) + tp * (tp + fp))
f1_lem tp fp fn = grind arith

f1_le : (tp fp fn : ℕ) → 2 * (tp * tp) ≤ tp * (tp + fn) + tp * (tp + fp)
f1_le tp fp fn = grind arith

quotient_pos : (a b : ℕ) → 0 < b → quotient a b ≡ record { num = a; den = b }
quotient_pos a b h = ground arith

sum_pos : (tp fp fn : ℕ) → 0 < tp → 0 < tp * (tp + fn) + tp * (tp + fp)
sum_pos tp fp fn h = grind arith

-- The F1 of a tally with a true positive, and of one without.
f1_of-pos :
    (c : Counts)
    → 0 < c.tp
    → f1_of c
      ≡ record { num = 2 * (c.tp * c.tp); den = c.tp * (c.tp + c.fn) + c.tp * (c.tp + c.fp) }
unfolding f1_of
f1_of-pos c h =
    rw
      (quotient_pos c.tp (c.tp + c.fp) (omega arith), quotient_pos c.tp (c.tp + c.fn) (omega arith))
      (quotient_pos (2 * (c.tp * c.tp)) _ (sum_pos c.tp c.fp c.fn h))

quotient_none : (a b : ℕ) → a ≡ 0 → (quotient a b).num ≡ 0
quotient_none a b h = ground arith

empty :
    (p r : Fraction)
    → p.num ≡ 0
    → r.num ≡ 0
    → quotient (2 * (p.num * r.num)) (p.num * r.den + r.num * p.den) ≡ record { num = 0; den = 1 }
empty p r pn rn = let e : 0 * r.den + 0 * p.den ≡ 0 = omega arith in rw (pn, rn, e) refl

f1_of-none : (c : Counts) → c.tp ≡ 0 → f1_of c ≡ record { num = 0; den = 1 }
unfolding f1_of
f1_of-none c h =
    empty (precision_of c) (recall_of c) (quotient_none c.tp (c.tp + c.fp) h)
      (quotient_none c.tp (c.tp + c.fn) h)

f1_of_lem :
    (c : Counts)
    → ((f1_of c).num * (2 * c.tp + c.fp + c.fn) ≡ 2 * c.tp * (f1_of c).den)
      × ((f1_of c).num ≤ (f1_of c).den)
      × (0 < (f1_of c).den)
f1_of_lem c = elim (Bool-cases (ltb 0 c.tp)) [
  | inl some_ ↦
      let positive : 0 < c.tp = ground arith in
      (
        rw (f1_of-pos c positive) (f1_lem c.tp c.fp c.fn),
        rw (f1_of-pos c positive) (f1_le c.tp c.fp c.fn),
        rw (f1_of-pos c positive) (sum_pos c.tp c.fp c.fn positive),
      )
  | inr none_ ↦
      let zero_ : c.tp ≡ 0 = ground arith in
      (
        rw (f1_of-none c zero_, zero_) (omega arith),
        rw (f1_of-none c zero_) (omega arith),
        rw (f1_of-none c zero_) (omega arith),
      )
]

-- A quotient of a part by the whole.
quotient_lem :
    (a b : ℕ)
    → ((quotient a (a + b)).num * (a + b) ≡ a * (quotient a (a + b)).den)
      × (0 < (quotient a (a + b)).den)
      × ((quotient a (a + b)).num ≤ (quotient a (a + b)).den)
quotient_lem a b = (ground arith, ground arith, ground arith)

-- `metricsFrom` counts every example once: the four counts add up to the examples, those of the shills
-- to the shills and those of the alarms to the alarms. Precision is tp / (tp + fp), recall is
-- tp / (tp + fn), and the F1 made of them is 2 tp / (2 tp + fp + fn), each cleared of its denominators,
-- which are positive; without a true positive all three are 0; and they lie between 0 and 1.
pub metrics_from_lem :
    (ss : List Scored)
    → let m = metrics_from ss in
      let c = m.counts in
      (c.tp + c.fp + c.tn + c.fn ≡ length ss)
      × (c.tp + c.fn ≡ length (keep (λ s. s.is_shill) ss))
      × (c.tp + c.fp ≡ length (keep (λ s. s.pred) ss))
      × (m.precision.num * (c.tp + c.fp) ≡ c.tp * m.precision.den)
      × (m.recall.num * (c.tp + c.fn) ≡ c.tp * m.recall.den)
      × (m.f1.num * (2 * c.tp + c.fp + c.fn) ≡ 2 * c.tp * m.f1.den)
      × (c.tp ≡ 0 → (m.precision.num ≡ 0) × (m.recall.num ≡ 0) × (m.f1.num ≡ 0))
      × (0 < m.precision.den)
      × (0 < m.recall.den)
      × (0 < m.f1.den)
      × (m.precision.num ≤ m.precision.den)
      × (m.recall.num ≤ m.recall.den)
      × (m.f1.num ≤ m.f1.den)
unfolding metrics_from
metrics_from_lem ss =
    let c = count_from no_counts ss in
    let (all, shills, alarms) = count_from-size no_counts ss in
    let (f1, f1_small, f1_den) = f1_of_lem c in
    let (p, p_den, p_small) = quotient_lem c.tp c.fp in
    let (r, r_den, r_small) = quotient_lem c.tp c.fn in
    (
      omega (arith, all),
      omega (arith, shills),
      omega (arith, alarms),
      p,
      r,
      f1,
      (λ none_. (
        quotient_none c.tp (c.tp + c.fp) none_,
        quotient_none c.tp (c.tp + c.fn) none_,
        ap (λ (f : Fraction). f.num) (f1_of-none c none_),
      )),
      p_den,
      r_den,
      f1_den,
      p_small,
      r_small,
      f1_small,
    )
