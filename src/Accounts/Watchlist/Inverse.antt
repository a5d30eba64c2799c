-- ===== src/Accounts/Watchlist/Inverse.antt =====
-- Taking an auction off the watchlist undoes putting it on.
use auctionhaus.Prelude.{ℕ, ◌≡◌, none, some, List, ◌∷◌, not, keep, find_first, arith, keep-none}
use auctionhaus.Schema.{Auction}
use auctionhaus.Store.{find_auction}
use auctionhaus.Tx.{ok}
use auctionhaus.Accounts.{WatchlistItem, Site}
use auctionhaus.Accounts.Watchlist.{
  is_item, find_item, upsert_item, add_to_watchlist, remove_from_watchlist,
}

find_item-new :
    (user_id auction_id : ℕ) (items : List WatchlistItem)
    → find_item user_id auction_id (record { user_id = user_id; auction_id = auction_id } ∷ items)
      ≡ some (record { user_id = user_id; auction_id = auction_id })
unfolding find_item find_first
find_item-new user_id auction_id items = ground arith

keep-new :
    (user_id auction_id : ℕ) (items : List WatchlistItem)
    → find_item user_id auction_id items ≡ none
    → keep
        (λ i. not (is_item user_id auction_id i))
        (record { user_id = user_id; auction_id = auction_id } ∷ items)
      ≡ items
unfolding find_item keep
keep-new user_id auction_id items absent =
    ground (arith, keep-none (is_item user_id auction_id) items absent)

-- Where an existing auction is not on the user's watchlist, adding it and removing it again succeed and
-- leave everything as it was.
remove-add_to_watchlist :
    (user_id auction_id : ℕ) (a : Auction) (s : Site)
    → find_auction auction_id s.world.db.auctions ≡ some a
    → find_item user_id auction_id s.people.watchlist ≡ none
    → remove_from_watchlist user_id auction_id (add_to_watchlist user_id auction_id s).1
      ≡ (ok tt, s)
unfolding add_to_watchlist remove_from_watchlist upsert_item
remove-add_to_watchlist user_id auction_id a s found absent = grind (
  arith,
  find_item-new user_id auction_id s.people.watchlist,
  keep-new user_id auction_id s.people.watchlist,
)
