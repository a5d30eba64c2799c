-- ===== src/Accounts/Ratings.antt =====
-- The averages of the users against the table of ratings.
use auctionhaus.Prelude.{
  ℕ, ◌≤◌, ◌≡◌, refl, ap, sym, ◌⊎◌, inl, inr, ltb, ◌||◌, Option-cases, Bool-cases, ==→eq, none, some,
  List, [], ◌∷◌, ◌==◌, keep, length, find_first, update_first, All, arith, if◌then◌else◌,
}
use mathlib.Core.Path.{subst}
use auctionhaus.Accounts.{User, Rating, Directory, find_user, update_user}
use auctionhaus.Accounts.Users.{
  same_rating, is_about, sum_scores, write_rating, create_rating, rate_user,
}

-- Every score is from 1 to 5, nobody rated the same user twice for an auction, and each user's row has
-- the sum and the number of the scores that the user was given.
pub record IsRated (people : Directory) : Type 0 where
  pub scores : All (λ r. (1 ≤ r.score) × (r.score ≤ 5)) people.ratings
  pub once : (a b c : ℕ) → length (keep (same_rating a b c) people.ratings) ≤ 1
  pub averages :
      (id : ℕ) (u : User)
      → find_user id people.users ≡ some u
      → (u.rating_sum ≡ sum_scores (keep (is_about id) people.ratings))
        × (u.rating_count ≡ length (keep (is_about id) people.ratings))

find_user-write_rating :
    (id ratee : ℕ) (ratings : List Rating) (us : List User)
    → find_user id (update_user ratee (write_rating ratee ratings) us) ≡ (elim (find_user id us) [
      | none ↦ none
      | some u ↦ some (if id == ratee then write_rating ratee ratings u else u)
    ])
unfolding find_user update_user find_first update_first write_rating
find_user-write_rating id ratee ratings [] = refl
find_user-write_rating id ratee ratings (x ∷ xs) =
    grind (arith, find_user-write_rating id ratee ratings xs)

absent-keep :
    (a b c : ℕ) (rs : List Rating)
    → find_first (same_rating a b c) rs ≡ none
    → length (keep (same_rating a b c) rs) ≡ 0
unfolding find_first keep
absent-keep a b c [] absent = refl
absent-keep a b c (x ∷ xs) absent = ground (arith, absent-keep a b c xs)

-- A rating that is stored, with what was checked before.
record Stored (r : Rating) (people : Directory) : Type 0 where
  low : 1 ≤ r.score
  high : r.score ≤ 5
  absent : find_first (same_rating r.rater_id r.ratee_id r.auction_id) people.ratings ≡ none
  state : (rate_user r people).1 ≡ record people {
    ratings = r ∷ people.ratings;
    users = update_user r.ratee_id (write_rating r.ratee_id (r ∷ people.ratings)) people.users;
  }

rate_user-cases :
    (r : Rating) (people : Directory) → ((rate_user r people).1 ≡ people) ⊎ Stored r people
unfolding rate_user create_rating
rate_user-cases r people =
    elim (Option-cases
      (find_first (same_rating r.rater_id r.ratee_id r.auction_id) people.ratings)) [
        | inr (old, found) ↦ inl (ground arith)
        | inl absent ↦ elim (Bool-cases (r.rater_id == r.ratee_id)) [
          | inl own ↦ inl (ground arith)
          | inr other ↦ elim (Bool-cases (ltb r.score 1 || ltb 5 r.score)) [
            | inl bad ↦ inl (ground arith)
            | inr good ↦ elim (Option-cases (find_user r.ratee_id people.users)) [
              | inl missing ↦ inl (ground arith)
              | inr (u, found) ↦ inr (record {
                low = ground arith;
                high = ground arith;
                absent = absent;
                state = ground arith;
              })
            ]
          ]
        ]
      ]

once-add :
    (r : Rating) (a b c : ℕ) (rs : List Rating)
    → find_first (same_rating r.rater_id r.ratee_id r.auction_id) rs ≡ none
    → length (keep (same_rating a b c) rs) ≤ 1
    → length (keep (same_rating a b c) (r ∷ rs)) ≤ 1
unfolding keep
once-add r a b c rs absent once =
    grind (arith, absent-keep r.rater_id r.ratee_id r.auction_id rs absent)

averages-add :
    (r : Rating) (people : Directory) (id : ℕ) (u : User)
    → IsRated people
    → find_user id
        (update_user r.ratee_id (write_rating r.ratee_id (r ∷ people.ratings)) people.users)
      ≡ some u
    → (u.rating_sum ≡ sum_scores (keep (is_about id) (r ∷ people.ratings)))
      × (u.rating_count ≡ length (keep (is_about id) (r ∷ people.ratings)))
unfolding write_rating keep
averages-add r people id u rated found = elim (Bool-cases (id == r.ratee_id)) [
  | inl hit ↦
      let moved = find_user-write_rating id r.ratee_id (r ∷ people.ratings) people.users in
      let same : is_about r.ratee_id ≡ is_about id = ap is_about (sym (==→eq id r.ratee_id hit)) in
      grind arith
  | inr miss ↦
      let moved = find_user-write_rating id r.ratee_id (r ∷ people.ratings) people.users in
      grind (arith, rated.averages id)
]

-- A rating, stored or refused, keeps every score from 1 to 5, each pair of users and auction rated at
-- most once, and the average of each user in step with the table.
pub rate_user-IsRated :
    (r : Rating) (people : Directory) → IsRated people → IsRated (rate_user r people).1
rate_user-IsRated r people rated = elim (rate_user-cases r people) [
  | inl same ↦ subst IsRated (sym same) rated
  | inr new ↦ subst IsRated (sym new.state) (record {
    scores = ((new.low, new.high), rated.scores);
    once = λ a b c. once-add r a b c people.ratings new.absent (rated.once a b c);
    averages = λ id u found. averages-add r people id u rated found;
  })
]
