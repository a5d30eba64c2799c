-- ===== src/Scenario.antt =====
-- Concrete tables for the tests: a seller, two bidders, and one auction of each kind.
use auctionhaus.Prelude.{ℕ, false, none, some, [], ◌∷◌, pos}
use auctionhaus.Schema.{Auction, AuctionType, AuctionStatus, Bid, BidStatus}
use auctionhaus.Store.{Db}
use auctionhaus.Tx.{World}

abbrev pub seller : ℕ
seller = 1

abbrev pub alice : ℕ
alice = 2

abbrev pub bob : ℕ
bob = 3

abbrev pub auction_of : ℕ → AuctionType → Auction
auction_of id kind = record {
  id = id;
  seller_id = seller;
  kind = kind;
  status = AuctionStatus.active;
  starting_price = 1000;
  reserve_price = some 1200;
  current_price = 1000;
  buy_now_price = some 9000;
  dutch_price_step = some 50;
  dutch_interval = some 60;
  min_increment = 100;
  anti_sniping_mins = 5;
  start_time = 0;
  end_time = 1000000;
  actual_end_time = none;
  winner_id = none;
  winner_bid_id = none;
}

abbrev pub english_auction : Auction
english_auction = auction_of 10 AuctionType.english

abbrev pub dutch_auction : Auction
dutch_auction = auction_of 11 AuctionType.dutch

abbrev pub sealed_auction : Auction
sealed_auction = auction_of 12 AuctionType.sealed_bid

-- Alice holds the winning bid of the English auction.
abbrev pub alice_bid : Bid
alice_bid = record {
  id = 20;
  auction_id = 10;
  bidder_id = alice;
  amount = 1000;
  status = BidStatus.winning;
  is_auto_bid = false;
  created_at = 5;
  refunded_at = none;
}

abbrev pub market : Db
market = record {
  wallets =
      record { user_id = seller; balance = pos 0; held_amount = pos 0 }
      ∷ record { user_id = alice; balance = pos 50000; held_amount = pos 1000 }
      ∷ record { user_id = bob; balance = pos 30000; held_amount = pos 0 }
      ∷ [];
  auctions = english_auction ∷ dutch_auction ∷ sealed_auction ∷ [];
  bids = alice_bid ∷ [];
  auto_bids = [];
  transactions = [];
  settlements = [];
  commitments = [];
  next_id = 21;
}

abbrev pub opened : World
opened = record { db = market; locks = []; outbox = [] }
