-- ===== src/Accounts/Users.antt =====
-- back/src/modules/users/user.service.ts: ratings and the listings of a user. (Names and avatars, which
-- `updateProfile` changes, are left out.)
use auctionhaus.Prelude.{
  ℕ, ◌+◌, Bool, ◌&&◌, ◌||◌, none, some, List, [], ◌∷◌, ltb, ◌==◌, if◌then◌else◌, keep, find_first,
  reverse, first_n, length,
}
use auctionhaus.Schema.{Bid}
use auctionhaus.Store.{Db}
use auctionhaus.Tx.{Result, ok, err, own_rating, bad_score, already_rated, record_not_found}
use auctionhaus.Accounts.{User, Rating, Directory, find_user, update_user}
use auctionhaus.BidList.{by_time}

-- The three columns of the unique index.
abbrev pub same_rating : ℕ → ℕ → ℕ → Rating → Bool
same_rating rater_id ratee_id auction_id r =
    r.rater_id == rater_id && r.ratee_id == ratee_id && r.auction_id == auction_id

abbrev pub is_about : ℕ → Rating → Bool
is_about ratee_id r = r.ratee_id == ratee_id

unfoldable pub sum_scores : List Rating → ℕ
sum_scores [] = 0
sum_scores (r ∷ rs) = r.score + sum_scores rs

-- `rating.aggregate`, and the update of the ratee's row with the average and the count.
unfoldable pub write_rating : ℕ → List Rating → User → User
unfolding keep sum_scores
write_rating ratee_id ratings u =
    let about = keep (is_about ratee_id) ratings in
    record u { rating_sum = sum_scores about; rating_count = length about }

-- The rating is created, and then the ratee's row updated. If that has no row, the insert fails on
-- its foreign key.
unfoldable pub create_rating : Rating → Directory → Result Rating × Directory
unfolding find_user update_user write_rating
create_rating r people =
    let ratings = r ∷ people.ratings in
    elim (find_user r.ratee_id people.users) [
      | none ↦ (err record_not_found, people)
      | some _ ↦ (
        ok r,
        record people {
          ratings = ratings;
          users = update_user r.ratee_id (write_rating r.ratee_id ratings) people.users;
        },
      )
    ]

-- `rateUser`
unfoldable pub rate_user : Rating → Directory → Result Rating × Directory
unfolding create_rating find_first
rate_user r people =
    if r.rater_id == r.ratee_id
    then (err own_rating, people)
    else if ltb r.score 1 || ltb 5 r.score
    then (err bad_score, people)
    else elim (find_first (same_rating r.rater_id r.ratee_id r.auction_id) people.ratings) [
      | some _ ↦ (err already_rated, people)
      | none ↦ create_rating r people
    ]

-- `getBidHistory`: the latest fifty.
unfoldable pub get_bid_history : ℕ → Db → List Bid
unfolding keep by_time first_n
get_bid_history user_id db =
    first_n 50 (reverse (by_time (keep (λ b. b.bidder_id == user_id) db.bids)))
