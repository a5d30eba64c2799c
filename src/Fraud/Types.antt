-- ===== src/Fraud/Types.antt =====
-- back/src/modules/fraud/fraud.types.ts, without names and titles. A feature that is a quotient keeps
-- its two parts.
use auctionhaus.Prelude.{ℕ, Bool, ℤ}

pub record BidEvent : Type 0 where
  pub bid_id : ℕ
  pub auction_id : ℕ
  pub bidder_id : ℕ
  pub seller_id : ℕ
  pub amount : ℕ
  pub min_increment : ℕ
  pub ts : ℕ
  pub is_auto_bid : Bool

pub record Ratio : Type 0 where
  pub num : ℤ
  pub den : ℕ

pub record FeatureVector : Type 0 where
  pub response_time_ms : ℤ
  pub bid_frequency_per_min : Ratio
  pub increment_ratio : Ratio
  pub seller_co_occurrence : ℕ
  pub reciprocity_score : Ratio
