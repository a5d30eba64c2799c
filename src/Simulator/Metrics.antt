-- ===== src/Simulator/Metrics.antt =====
-- `metricsFrom` and the sweeps of packages/simulator/src/eval.ts and the report of
-- packages/simulator/src/train.ts. Quotients are exact and keep their two parts, in lowest terms or not.
pub mod Confusion
pub mod Sweep
mod Tests
use auctionhaus.Prelude.{ℕ, ◌+◌, ◌*◌, Bool, true, false, List, [], ◌∷◌, map, ltb, if◌then◌else◌}

-- A label, which is 1 for a shill, and a prediction.
pub record Scored : Type 0 where
  pub is_shill : Bool
  pub pred : Bool

pub record Counts : Type 0 where
  pub tp : ℕ
  pub fp : ℕ
  pub tn : ℕ
  pub fn : ℕ

abbrev pub no_counts : Counts
no_counts = record { tp = 0; fp = 0; tn = 0; fn = 0 }

abbrev pub tally : Bool → Bool → Counts → Counts
tally true true c = record c { tp = c.tp + 1 }
tally false true c = record c { fp = c.fp + 1 }
tally false false c = record c { tn = c.tn + 1 }
tally true false c = record c { fn = c.fn + 1 }

-- The loop of `metricsFrom`.
unfoldable pub count_from : Counts → List Scored → Counts
count_from c [] = c
count_from c (s ∷ ss) = count_from (tally s.is_shill s.pred c) ss

pub record Fraction : Type 0 where
  pub num : ℕ
  pub den : ℕ

-- `a / b` where b is positive, and 0 where it is not.
abbrev pub quotient : ℕ → ℕ → Fraction
quotient a b = if ltb 0 b then record { num = a; den = b } else record { num = 0; den = 1 }

abbrev pub precision_of : Counts → Fraction
precision_of c = quotient c.tp (c.tp + c.fp)

abbrev pub recall_of : Counts → Fraction
recall_of c = quotient c.tp (c.tp + c.fn)

-- `(2 * p * r) / (p + r)`, with both over the product of the two denominators.
unfoldable pub f1_of : Counts → Fraction
f1_of c =
    let p = precision_of c in
    let r = recall_of c in quotient (2 * (p.num * r.num)) (p.num * r.den + r.num * p.den)

pub record Metrics : Type 0 where
  pub counts : Counts
  pub precision : Fraction
  pub recall : Fraction
  pub f1 : Fraction
  pub fpr : Fraction
  pub tpr : Fraction

-- `metricsFrom`
unfoldable pub metrics_from : List Scored → Metrics
unfolding count_from f1_of
metrics_from ss =
    let c = count_from no_counts ss in
    record {
      counts = c;
      precision = precision_of c;
      recall = recall_of c;
      f1 = f1_of c;
      fpr = quotient c.fp (c.fp + c.tn);
      tpr = recall_of c;
    }

-- A label and a score, of whatever ordered type; `leb t s` is `s.score >= t`.
module _ {A : Type 0} (leb_score : A → A → Bool) where
  unfoldable pub at_threshold : A → List (Bool × A) → List Scored
  at_threshold t [] = []
  at_threshold t ((label, score) ∷ ss) =
      record { is_shill = label; pred = leb_score t score } ∷ at_threshold t ss

  -- The sweep of thresholds.
  unfoldable pub roc : List A → List (Bool × A) → List (A × Metrics)
  unfolding at_threshold metrics_from
  roc [] ss = []
  roc (t ∷ ts) ss = (t, metrics_from (at_threshold t ss)) ∷ roc ts ss
