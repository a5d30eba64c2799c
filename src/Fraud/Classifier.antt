-- ===== src/Fraud/Classifier.antt =====
-- back/src/modules/fraud/fraud.classifier.ts: a logistic regression. JavaScript's numbers are taken
-- through the operations that the code uses of them, with a decimal literal as digits over a power
-- of ten.
use auctionhaus.Prelude.{Bool, ◌&&◌, List, [], ◌∷◌, ℤ, pos, neg, ltb_ℤ, leb, if◌then◌else◌}
use auctionhaus.Fraud.Types.{Ratio, FeatureVector}

pub record Floats : Type 1 where
  pub Float : Type 0
  pub of_int : ℤ → Float
  pub add : Float → Float → Float
  pub sub : Float → Float → Float
  pub mul : Float → Float → Float
  pub div : Float → Float → Float
  pub negate : Float → Float
  pub exp : Float → Float
  pub minimum : Float → Float → Float
  pub maximum : Float → Float → Float
  pub less : Float → Float → Bool

-- What an explanation names.
pub data Reason : Type 0 where
  bot_speed high_frequency minimum_increment co_occurrence collusion_ring composite : Reason

module _ (F : Floats) where
  open F use {Float, of_int, add, sub, mul, div, negate, exp, minimum, maximum, less}

  -- A literal with four digits after the point.
  abbrev pub literal : ℤ → Float
  literal n = div (of_int n) (of_int (pos 10000))

  pub record FloatVector : Type 0 where
    pub response_time_ms : Float
    pub bid_frequency_per_min : Float
    pub increment_ratio : Float
    pub reciprocity_score : Float
    pub seller_co_occurrence : Float

  abbrev pub of_ratio : Ratio → Float
  of_ratio r = div (of_int r.num) (of_int (pos r.den))

  abbrev pub floats_of : FeatureVector → FloatVector
  floats_of f = record {
    response_time_ms = of_int f.response_time_ms;
    bid_frequency_per_min = of_ratio f.bid_frequency_per_min;
    increment_ratio = of_ratio f.increment_ratio;
    reciprocity_score = of_ratio f.reciprocity_score;
    seller_co_occurrence = of_int (pos f.seller_co_occurrence);
  }

  abbrev pub weights : FloatVector
  weights = record {
    response_time_ms = literal (pos 547);
    bid_frequency_per_min = literal (neg (pos 289));
    increment_ratio = literal (neg (pos 2463));
    reciprocity_score = literal (neg (pos 8511));
    seller_co_occurrence = literal (pos 26207);
  }

  abbrev pub intercept : Float
  intercept = literal (pos 23568)

  abbrev pub mean : FloatVector
  mean = record {
    response_time_ms = literal (pos 70380270);
    bid_frequency_per_min = literal (pos 1441);
    increment_ratio = literal (pos 17838);
    reciprocity_score = literal (pos 4189);
    seller_co_occurrence = literal (pos 21757);
  }

  abbrev pub std : FloatVector
  std = record {
    response_time_ms = literal (pos 44874661);
    bid_frequency_per_min = literal (pos 1019);
    increment_ratio = literal (pos 14451);
    reciprocity_score = literal (pos 3699);
    seller_co_occurrence = literal (pos 9206);
  }

  abbrev pub score_threshold : Float
  score_threshold = literal (pos 5000)

  unfoldable pub sigmoid : Float → Float
  sigmoid x = div (of_int (pos 1)) (add (of_int (pos 1)) (exp (negate x)))

  unfoldable pub clamp : Float → Float → Float
  clamp v s =
      if less (of_int (pos 0)) s
      then maximum (of_int (neg (pos 4))) (minimum (of_int (pos 4)) (div v s))
      else of_int (pos 0)

  unfoldable pub normalise : FloatVector → FloatVector
  unfolding clamp
  normalise f = record {
    response_time_ms = clamp (sub f.response_time_ms mean.response_time_ms) std.response_time_ms;
    bid_frequency_per_min =
        clamp (sub f.bid_frequency_per_min mean.bid_frequency_per_min) std.bid_frequency_per_min;
    increment_ratio = clamp (sub f.increment_ratio mean.increment_ratio) std.increment_ratio;
    reciprocity_score =
        clamp (sub f.reciprocity_score mean.reciprocity_score) std.reciprocity_score;
    seller_co_occurrence =
        clamp (sub f.seller_co_occurrence mean.seller_co_occurrence) std.seller_co_occurrence;
  }

  -- The sum of `score`, from the left.
  unfoldable pub logit : FloatVector → Float
  logit z =
      add
        (add
          (add
            (add (add intercept (mul weights.response_time_ms z.response_time_ms))
              (mul weights.bid_frequency_per_min z.bid_frequency_per_min))
            (mul weights.increment_ratio z.increment_ratio))
          (mul weights.reciprocity_score z.reciprocity_score))
        (mul weights.seller_co_occurrence z.seller_co_occurrence)

  unfoldable pub score : FeatureVector → Float
  unfolding sigmoid normalise logit
  score f = sigmoid (logit (normalise (floats_of f)))

  abbrev pub reason_if : Bool → Reason → List Reason → List Reason
  reason_if b r rs = if b then r ∷ rs else rs

  -- `explain`: which parts the text has.
  unfoldable pub explain : FeatureVector → List Reason
  explain f = elim parts [ [] ↦ composite ∷ [] | r ∷ rs ↦ r ∷ rs ]
    where
      v : FloatVector
      v = floats_of f

      parts : List Reason
      parts =
          reason_if (ltb_ℤ f.response_time_ms (pos 500) && ltb_ℤ (pos 0) f.response_time_ms)
            bot_speed
            (reason_if (less (of_int (pos 2)) v.bid_frequency_per_min) high_frequency (
              reason_if
                (less v.increment_ratio (literal (pos 15000))
                  && less (of_int (pos 0)) v.increment_ratio)
                minimum_increment
                (reason_if (leb 3 f.seller_co_occurrence) co_occurrence
                  (reason_if (less (literal (pos 3000)) v.reciprocity_score) collusion_ring []))))
