-- ===== src/Accounts/Watchlist.antt =====
-- `addToWatchlist` and `removeFromWatchlist` of back/src/modules/watchlist/watchlist.service.ts.
pub mod Inverse
use auctionhaus.Prelude.{
  ℕ, ◌≡◌, refl, Bool, true, false, not, ◌&&◌, Option, none, some, List, [], ◌∷◌, ◌==◌,
  if◌then◌else◌, keep, find_first, arith,
}
use auctionhaus.Store.{find_auction}
use auctionhaus.Tx.{Result, ok, err, auction_not_found, not_in_watchlist}
use auctionhaus.Accounts.{WatchlistItem, Directory, Site}

abbrev pub is_item : ℕ → ℕ → WatchlistItem → Bool
is_item user_id auction_id i = i.user_id == user_id && i.auction_id == auction_id

unfoldable pub find_item : ℕ → ℕ → List WatchlistItem → Option WatchlistItem
unfolding find_first
find_item user_id auction_id = find_first (is_item user_id auction_id)

-- `watchlistItem.upsert` with an empty update.
unfoldable pub upsert_item : ℕ → ℕ → List WatchlistItem → List WatchlistItem
unfolding find_item
upsert_item user_id auction_id items = elim (find_item user_id auction_id items) [
  | some _ ↦ items
  | none ↦ record { user_id = user_id; auction_id = auction_id } ∷ items
]

-- `addToWatchlist`
unfoldable pub add_to_watchlist : ℕ → ℕ → Site → Result (Unit {0}) × Site
unfolding upsert_item find_auction
add_to_watchlist user_id auction_id s = elim (find_auction auction_id s.world.db.auctions) [
  | none ↦ (err auction_not_found, s)
  | some _ ↦ (
    ok tt,
    record s {
      people = record s.people { watchlist = upsert_item user_id auction_id s.people.watchlist };
    },
  )
]

-- `removeFromWatchlist`
unfoldable pub remove_from_watchlist : ℕ → ℕ → Site → Result (Unit {0}) × Site
unfolding find_item keep
remove_from_watchlist user_id auction_id s =
    elim (find_item user_id auction_id s.people.watchlist) [
      | none ↦ (err not_in_watchlist, s)
      | some _ ↦ (
        ok tt,
        record s {
          people = record s.people {
            watchlist = keep (λ i. not (is_item user_id auction_id i)) s.people.watchlist;
          };
        },
      )
    ]
