-- ===== src/Detail.antt =====
-- `getAuctions` and `getAuctionById` of back/src/modules/auctions/auction.service.ts. Titles, names and
-- pictures are left out.
pub mod Privacy
mod Tests
use auctionhaus.Prelude.{
  ℕ, ◌+◌, ◌-◌, ◌*◌, ◌/◌, Bool, true, false, ◌&&◌, Option, none, some, List, [], ◌∷◌, leb, ◌==◌,
  if◌then◌else◌, keep, find_first, first_n, skip_n, length,
}
use mathlib.Core.Option
use auctionhaus.Schema.{Auction, AuctionType, AuctionStatus, AutoBid, Bid}
use auctionhaus.Store.{Db, find_auction}
use auctionhaus.Tx.{Result, ok, err, auction_not_found}
use auctionhaus.AutoBids.{is_of}
use auctionhaus.BidList.{is_sealed_live, is_on}
use auctionhaus.Accounts.{WatchlistItem, Site}
use auctionhaus.Accounts.Watchlist.{find_item}

abbrev pub same_status : AuctionStatus → AuctionStatus → Bool
same_status AuctionStatus.pending AuctionStatus.pending = true
same_status AuctionStatus.active AuctionStatus.active = true
same_status AuctionStatus.ended AuctionStatus.ended = true
same_status AuctionStatus.cancelled AuctionStatus.cancelled = true
same_status _ _ = false

abbrev pub same_kind : AuctionType → AuctionType → Bool
same_kind AuctionType.english AuctionType.english = true
same_kind AuctionType.dutch AuctionType.dutch = true
same_kind AuctionType.sealed_bid AuctionType.sealed_bid = true
same_kind _ _ = false

-- The `where` of `getAuctions`. `matches` are the ids that the text search of the database finds, where
-- there is a search; a search without usable words finds none.
pub record Filter : Type 0 where
  pub status : Option AuctionStatus
  pub kind : Option AuctionType
  pub matches : Option (List ℕ)

unfoldable pub is_among : ℕ → List ℕ → Bool
is_among id [] = false
is_among id (j ∷ js) = if j == id then true else is_among id js

unfoldable pub fits_filter : Filter → Auction → Bool
unfolding is_among
fits_filter f a =
    elim f.status [ none ↦ true | some s ↦ same_status a.status s ]
    && elim f.kind [ none ↦ true | some k ↦ same_kind a.kind k ]
    && elim f.matches [ none ↦ true | some ids ↦ is_among a.id ids ]

pub record Page : Type 0 where
  pub auctions : List Auction
  pub total : ℕ
  pub total_pages : ℕ

-- `getAuctions`, newest first, with pages from 1 on and a limit that is not zero.
unfoldable pub get_auctions : Filter → ℕ → ℕ → Db → Page
unfolding fits_filter keep first_n skip_n
get_auctions f page limit db =
    let rows = keep (fits_filter f) db.auctions in
    record {
      auctions = first_n limit (skip_n ((page - 1) * limit) rows);
      total = length rows;
      total_pages = (length rows + (limit - 1)) / limit;
    }

unfoldable pub insert_latest : Bid → List Bid → List Bid
insert_latest x [] = x ∷ []
insert_latest x (y ∷ ys) =
    let rest = insert_latest x ys in if leb y.created_at x.created_at then x ∷ y ∷ ys else y ∷ rest

-- `orderBy: { createdAt: 'desc' }`
unfoldable pub latest_first : List Bid → List Bid
unfolding insert_latest
latest_first [] = []
latest_first (x ∷ xs) = insert_latest x (latest_first xs)

-- A viewer need not be logged in.
abbrev pub is_own : Option ℕ → Bid → Bool
is_own none b = false
is_own (some viewer_id) b = b.bidder_id == viewer_id

pub record AuctionDetail : Type 0 where
  pub auction : Auction
  pub bids : List Bid
  pub bid_count : ℕ
  pub watch_count : ℕ
  pub is_watched : Bool
  pub auto_bid : Option (ℕ × Bool)

-- The latest twenty bids, of which a viewer of a live sealed auction sees the own ones.
unfoldable pub shown_bids : Auction → Option ℕ → List Bid → List Bid
unfolding keep first_n latest_first
shown_bids a viewer bids =
    let latest = first_n 20 (latest_first bids) in
    if is_sealed_live a then keep (is_own viewer) latest else latest

-- `getAuctionById`
unfoldable pub get_auction_by_id : ℕ → Option ℕ → Site → Result AuctionDetail
unfolding find_auction find_item keep shown_bids find_first
get_auction_by_id auction_id viewer s = elim (find_auction auction_id s.world.db.auctions) [
  | none ↦ err auction_not_found
  | some a ↦
      let bids = keep (is_on auction_id) s.world.db.bids in
      ok (record {
        auction = a;
        bids = shown_bids a viewer bids;
        bid_count = length bids;
        watch_count = length (keep (λ i. i.auction_id == auction_id) s.people.watchlist);
        is_watched = elim viewer [
          | none ↦ false
          | some id ↦ elim (find_item id auction_id s.people.watchlist) [
            | none ↦ false
            | some _ ↦ true
          ]
        ];
        auto_bid = elim viewer [
          | none ↦ none
          | some id ↦
              Option.map (λ ab. (ab.max_amount, ab.is_active))
                (find_first (is_of auction_id id) s.world.db.auto_bids)
        ];
      })
]
