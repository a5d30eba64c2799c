-- ===== src/Schema.antt =====
-- The data model of back/prisma/schema.prisma: enumerations and rows, with the columns that the
-- services read. Ids are numbers. Prices and bids are whole cents; the two columns of a wallet and
-- the amount of a ledger row are signed. Times are milliseconds. A wallet is named by its `userId`,
-- which is unique, and titles, descriptions and images are left out.
use auctionhaus.Prelude.{ℕ, Bool, true, false, Option, List, ℤ}

pub data AuctionType : Type 0 where
  english dutch sealed_bid : AuctionType

pub data AuctionStatus : Type 0 where
  pending active ended cancelled : AuctionStatus

pub data BidStatus : Type 0 where
  active outbid winning won lost : BidStatus

pub data TransactionType : Type 0 where
  deposit withdrawal bid_hold bid_release payment refund : TransactionType

pub data SettlementKind : Type 0 where
  direct_sale won_auction : SettlementKind

pub data NotificationType : Type 0 where
  outbid auction_won auction_lost auction_started auction_ended : NotificationType
  auto_bid_placed payment_received general : NotificationType

abbrev pub is_english : AuctionType → Bool
is_english t = elim t [ english ↦ true | dutch ↦ false | sealed_bid ↦ false ]

abbrev pub is_dutch : AuctionType → Bool
is_dutch t = elim t [ english ↦ false | dutch ↦ true | sealed_bid ↦ false ]

abbrev pub is_sealed : AuctionType → Bool
is_sealed t = elim t [ english ↦ false | dutch ↦ false | sealed_bid ↦ true ]

abbrev pub is_pending : AuctionStatus → Bool
is_pending s = elim s [ pending ↦ true | active ↦ false | ended ↦ false | cancelled ↦ false ]

abbrev pub is_active : AuctionStatus → Bool
is_active s = elim s [ pending ↦ false | active ↦ true | ended ↦ false | cancelled ↦ false ]

abbrev pub is_ended : AuctionStatus → Bool
is_ended s = elim s [ pending ↦ false | active ↦ false | ended ↦ true | cancelled ↦ false ]

abbrev pub is_cancelled : AuctionStatus → Bool
is_cancelled s = elim s [ pending ↦ false | active ↦ false | ended ↦ false | cancelled ↦ true ]

abbrev pub is_winning : BidStatus → Bool
is_winning s = elim s [
  | active ↦ false
  | outbid ↦ false
  | winning ↦ true
  | won ↦ false
  | lost ↦ false
]

abbrev pub is_won : BidStatus → Bool
is_won s = elim s [ active ↦ false | outbid ↦ false | winning ↦ false | won ↦ true | lost ↦ false ]

abbrev pub is_direct : SettlementKind → Bool
is_direct k = elim k [ direct_sale ↦ true | won_auction ↦ false ]

abbrev pub is_payment : TransactionType → Bool
is_payment k = elim k [
  | deposit ↦ false
  | withdrawal ↦ false
  | bid_hold ↦ false
  | bid_release ↦ false
  | payment ↦ true
  | refund ↦ false
]

pub record Wallet : Type 0 where
  pub user_id : ℕ
  pub balance : ℤ
  pub held_amount : ℤ

pub record Transaction : Type 0 where
  pub user_id : ℕ
  pub kind : TransactionType
  pub amount : ℤ
  pub reference_id : Option ℕ

pub record Auction : Type 0 where
  pub id : ℕ
  pub seller_id : ℕ
  pub kind : AuctionType
  pub status : AuctionStatus
  pub starting_price : ℕ
  pub reserve_price : Option ℕ
  pub current_price : ℕ
  pub buy_now_price : Option ℕ
  pub dutch_price_step : Option ℕ
  pub dutch_interval : Option ℕ
  pub min_increment : ℕ
  pub anti_sniping_mins : ℕ
  pub start_time : ℕ
  pub end_time : ℕ
  pub actual_end_time : Option ℕ
  pub winner_id : Option ℕ
  pub winner_bid_id : Option ℕ

pub record Bid : Type 0 where
  pub id : ℕ
  pub auction_id : ℕ
  pub bidder_id : ℕ
  pub amount : ℕ
  pub status : BidStatus
  pub is_auto_bid : Bool
  pub created_at : ℕ
  pub refunded_at : Option ℕ

pub record AutoBid : Type 0 where
  pub id : ℕ
  pub auction_id : ℕ
  pub bidder_id : ℕ
  pub max_amount : ℕ
  pub current_bid : ℕ
  pub is_active : Bool
  pub created_at : ℕ

pub record Settlement : Type 0 where
  pub auction_id : ℕ
  pub seller_id : ℕ
  pub party_id : ℕ
  pub amount : ℕ
  pub kind : SettlementKind

-- Texts are lists of character codes.
pub record Commitment : Type 0 where
  pub id : ℕ
  pub auction_id : ℕ
  pub bidder_id : ℕ
  pub commit_hash : List ℕ
  pub revealed_amount : Option ℕ
  pub revealed_nonce : Option (List ℕ)
  pub revealed_at : Option ℕ
  pub is_valid : Option Bool
