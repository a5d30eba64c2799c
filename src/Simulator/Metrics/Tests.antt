-- ===== src/Simulator/Metrics/Tests.antt =====
-- Four examples: one alarm of each kind, with scores in place of a classifier's.
use auctionhaus.Prelude.{
  ℕ, ◌+◌, ◌*◌, ◌≤◌, ◌<◌, ◌≡◌, refl, Bool, true, false, List, [], ◌∷◌, leb, length, keep, arith,
}
use auctionhaus.Simulator.Metrics.{Scored, metrics_from, at_threshold}
use auctionhaus.Simulator.Metrics.Confusion.{metrics_from_lem}

abbrev scores : List (Bool × ℕ)
scores = (true, 90) ∷ (false, 80) ∷ (true, 40) ∷ (false, 10) ∷ []

abbrev at : ℕ → List Scored
at t = at_threshold leb t scores

half : (metrics_from (at 50)).f1 ≡ record { num = 2; den = 4 }
unfolding metrics_from at_threshold
half = refl

metrics_from_lem_example :
    let m = metrics_from (at 50) in
    let c = m.counts in
    (c.tp + c.fp + c.tn + c.fn ≡ length (at 50))
    × (c.tp + c.fn ≡ length (keep (λ s. s.is_shill) (at 50)))
    × (c.tp + c.fp ≡ length (keep (λ s. s.pred) (at 50)))
    × (m.precision.num * (c.tp + c.fp) ≡ c.tp * m.precision.den)
    × (m.recall.num * (c.tp + c.fn) ≡ c.tp * m.recall.den)
    × (m.f1.num * (2 * c.tp + c.fp + c.fn) ≡ 2 * c.tp * m.f1.den)
    × (c.tp ≡ 0 → (m.precision.num ≡ 0) × (m.recall.num ≡ 0) × (m.f1.num ≡ 0))
    × (0 < m.precision.den)
    × (0 < m.recall.den)
    × (0 < m.f1.den)
    × (m.precision.num ≤ m.precision.den)
    × (m.recall.num ≤ m.recall.den)
    × (m.f1.num ≤ m.f1.den)
metrics_from_lem_example = metrics_from_lem (at 50)

reaches : (s : ℕ) → leb 50 s ≡ true → leb 30 s ≡ true
reaches s h = ground arith
