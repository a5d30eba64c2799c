-- ===== src/AutoBids.antt =====
-- back/src/modules/auto-bid/auto-bid.service.ts: automatic bids are set, cancelled and read.
pub mod Laws
mod Tests
use auctionhaus.Prelude.{
  ℕ, ◌+◌, Bool, true, false, not, ◌&&◌, Option, none, some, ◌∷◌, pos, ◌-ℤ◌, ltb, ltb_ℤ, ◌==◌,
  if◌then◌else◌, find_first, update_first, update_many,
}
use auctionhaus.Schema.{Auction, AuctionType, AutoBid, is_active, is_english}
use auctionhaus.Store.{Db, find_auction}
use auctionhaus.Tx.{
  Tx, raise, gets, guard, or_raise, modify, emit, when, wallet_or, ladder_job, ◌>>=◌, ◌>>◌,
  auction_not_found, auction_not_active, own_auction, auto_bid_on_sealed, auto_accept_not_below,
  auto_accept_below_reserve, max_not_above, auto_bid_wallet_not_found, insufficient_available,
}

abbrev pub is_of : ℕ → ℕ → AutoBid → Bool
is_of auction_id bidder_id ab = ab.auction_id == auction_id && ab.bidder_id == bidder_id

abbrev pub below_reserve : ℕ → Option ℕ → Bool
below_reserve amount none = false
below_reserve amount (some reserve) = ltb amount reserve

unfoldable pub check_max : Auction → ℕ → Tx (Unit {0})
check_max a max_amount = elim a.kind [
  | AuctionType.english ↦ guard (ltb a.current_price max_amount) max_not_above
  | AuctionType.dutch ↦
      (guard (ltb max_amount a.current_price) auto_accept_not_below
        >> guard (not (below_reserve max_amount a.reserve_price)) auto_accept_below_reserve)
  | AuctionType.sealed_bid ↦ raise auto_bid_on_sealed
]

-- `autoBid.upsert` on the pair of auction and bidder, which is unique.
unfoldable pub upsert : ℕ → ℕ → ℕ → ℕ → Db → Db
upsert auction_id bidder_id max_amount now db =
    elim (find_first (is_of auction_id bidder_id) db.auto_bids) [
      | some _ ↦ record db {
        auto_bids =
            update_first (is_of auction_id bidder_id)
              (λ ab. record ab { max_amount = max_amount; is_active = true }) db.auto_bids;
      }
      | none ↦ record db {
        auto_bids =
            record {
              id = db.next_id;
              auction_id = auction_id;
              bidder_id = bidder_id;
              max_amount = max_amount;
              current_bid = 0;
              is_active = true;
              created_at = now;
            }
            ∷ db.auto_bids;
        next_id = db.next_id + 1;
      }
    ]

-- `setAutoBid`. The checks and the write are in no transaction.
unfoldable pub set_auto_bid : ℕ → ℕ → ℕ → ℕ → Tx (Option AutoBid)
set_auto_bid auction_id bidder_id max_amount now = do
  row ← gets (λ db. find_auction auction_id db.auctions)
  a ← or_raise row auction_not_found
  guard (is_active a.status) auction_not_active
  guard (not (a.seller_id == bidder_id)) own_auction
  check_max a max_amount
  wallet ← wallet_or auto_bid_wallet_not_found bidder_id
  guard (not (ltb_ℤ (wallet.balance -ℤ wallet.held_amount) (pos max_amount))) insufficient_available
  modify (upsert auction_id bidder_id max_amount now)
  when (is_english a.kind) (emit (ladder_job auction_id bidder_id))
  gets (λ db. find_first (is_of auction_id bidder_id) db.auto_bids)

-- `cancelAutoBid`, which succeeds also when there is nothing to cancel.
unfoldable pub cancel_auto_bid : ℕ → ℕ → Tx (Unit {0})
cancel_auto_bid auction_id bidder_id = modify λ db. record db {
  auto_bids =
      update_many (is_of auction_id bidder_id) (λ ab. record ab { is_active = false }) db.auto_bids;
}

-- `getMyAutoBid`
unfoldable pub get_my_auto_bid : ℕ → ℕ → Db → Option AutoBid
get_my_auto_bid auction_id bidder_id db =
    elim (find_first (is_of auction_id bidder_id) db.auto_bids) [
      | none ↦ none
      | some ab ↦ if ab.is_active then some ab else none
    ]
