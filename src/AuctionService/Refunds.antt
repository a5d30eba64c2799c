-- ===== src/AuctionService/Refunds.antt =====
-- What a cancellation refunds, user by user, against the plain sum of the winning bids
-- (`cancelAuction` of back/src/modules/auctions/auction.service.ts).
use auctionhaus.Prelude.{
  ℕ, ◌+◌, ◌*◌, ◌<◌, ◌≡◌, ◌∙◌, ap, refl, Bool, true, false, ◌&&◌, ◌||◌, Bool-cases, inl, inr, none,
  some, List, [], ◌∷◌, All, map, keep, leb, ◌==◌, ==→eq, if◌then◌else◌, arith,
}
use auctionhaus.Schema.{Bid}
use auctionhaus.Store.{Db, find_wallet}
use auctionhaus.Tx.{insert_id, sort_ids}
use auctionhaus.AuctionService.{refund_of, refunded_users}

abbrev pub has_wallet : Db → ℕ → Bool
has_wallet db uid = elim (find_wallet uid db.wallets) [ none ↦ false | some _ ↦ true ]

-- The sum of the amounts of the bids whose bidders have a wallet.
unfoldable pub backed : List Bid → Db → ℕ
backed [] db = 0
backed (b ∷ bs) db = (if has_wallet db b.bidder_id then b.amount else 0) + backed bs db

-- What is refunded to a list of users.
unfoldable pub refunds : List Bid → List ℕ → ℕ
refunds tops [] = 0
refunds tops (uid ∷ uids) = refund_of uid tops + refunds tops uids

unfoldable occurrences : ℕ → List ℕ → ℕ
occurrences i [] = 0
occurrences i (j ∷ js) = (if i == j then 1 else 0) + occurrences i js

unfoldable member : ℕ → List ℕ → Bool
member i [] = false
member i (j ∷ js) = i == j || member i js

abbrev IsAscending : List ℕ → Type 0
IsAscending [] = Unit
IsAscending (i ∷ is) = All (λ j. i < j) is × IsAscending is

All-below : (i j : ℕ) (js : List ℕ) → i < j → All (λ k. j < k) js → All (λ k. i < k) js
All-below i j [] lt h = tt
All-below i j (k ∷ ks) lt h = (omega (arith, lt, h.0), All-below i j ks lt h.1)

All-insert_id :
    (i k : ℕ) (js : List ℕ) → i < k → All (λ j. i < j) js → All (λ j. i < j) (insert_id k js)
unfolding insert_id
All-insert_id i k [] lt h = (lt, tt)
All-insert_id i k (j ∷ js) lt h = ground (arith, All-insert_id i k js)

insert_id-IsAscending : (k : ℕ) (js : List ℕ) → IsAscending js → IsAscending (insert_id k js)
unfolding insert_id
insert_id-IsAscending k [] h = (tt, tt)
insert_id-IsAscending k (j ∷ js) h = elim (Bool-cases (k == j)) [
  | inl same ↦ rw same h
  | inr other ↦ elim (Bool-cases (leb k j)) [
    | inl first ↦
        let lt : k < j = ground arith in rw (other, first) ((lt, All-below k j js lt h.0), h)
    | inr after ↦
        let lt : j < k = ground arith in
        rw (other, after) (All-insert_id j k js lt h.0, insert_id-IsAscending k js h.1)
  ]
]

occurrences-above : (i : ℕ) (js : List ℕ) → All (λ j. i < j) js → occurrences i js ≡ 0
unfolding occurrences
occurrences-above i [] h = refl
occurrences-above i (j ∷ js) h = ground (arith, occurrences-above i js)

occurrences-insert_id :
    (i k : ℕ) (js : List ℕ)
    → IsAscending js
    → occurrences i (insert_id k js) ≡ (if i == k then 1 else occurrences i js)
unfolding occurrences insert_id
occurrences-insert_id i k [] h = ground arith
occurrences-insert_id i k (j ∷ js) h =
    let rest = occurrences-insert_id i k js h.1 in
    let above = occurrences-above j js h.0 in
    let further : k < j → occurrences k js ≡ 0 =
      λ lt. occurrences-above k js (All-below k j js lt h.0) in
    elim (Bool-cases (i == k)) [
      | inl same ↦ let e = ==→eq i k same in ground (arith, rest, above, further)
      | inr other ↦ ground (arith, rest)
    ]

sort_ids-IsAscending : (is : List ℕ) → IsAscending (sort_ids is)
unfolding sort_ids
sort_ids-IsAscending [] = tt
sort_ids-IsAscending (i ∷ is) = insert_id-IsAscending i (sort_ids is) (sort_ids-IsAscending is)

-- Each user once.
occurrences-sort_ids :
    (i : ℕ) (is : List ℕ) → occurrences i (sort_ids is) ≡ (if member i is then 1 else 0)
unfolding sort_ids member occurrences
occurrences-sort_ids i [] = refl
occurrences-sort_ids i (j ∷ js) = ground (
  arith,
  occurrences-insert_id i j (sort_ids js) (sort_ids-IsAscending js),
  occurrences-sort_ids i js,
)

member-bidders :
    (db : Db) (i : ℕ) (bs : List Bid)
    → member i (map (λ b. b.bidder_id) (keep (λ b. has_wallet db b.bidder_id) bs))
      ≡ (member i (map (λ b. b.bidder_id) bs) && has_wallet db i)
unfolding member keep
member-bidders db i [] = refl
member-bidders db i (b ∷ bs) =
    let rest = member-bidders db i bs in
    elim (Bool-cases (has_wallet db b.bidder_id)) [
      | inl has ↦ ground (arith, rest, has)
      | inr without ↦ ground (arith, rest, without)
    ]

abbrev AllIn : List ℕ → List Bid → Type 0
AllIn is bs = All (λ (b : Bid). member b.bidder_id is ≡ true) bs

AllIn-more : (i : ℕ) (is : List ℕ) (bs : List Bid) → AllIn is bs → AllIn (i ∷ is) bs
unfolding member
AllIn-more i is [] h = tt
AllIn-more i is (b ∷ bs) h = (ground arith, AllIn-more i is bs h.1)

AllIn-self : (bs : List Bid) → AllIn (map (λ b. b.bidder_id) bs) bs
unfolding member
AllIn-self [] = tt
AllIn-self (b ∷ bs) =
    (ground arith, AllIn-more b.bidder_id (map (λ c. c.bidder_id) bs) bs (AllIn-self bs))

refunds-bid :
    (b : Bid) (bs : List Bid) (uids : List ℕ)
    → refunds (b ∷ bs) uids ≡ occurrences b.bidder_id uids * b.amount + refunds bs uids
unfolding refunds refund_of occurrences
refunds-bid b bs [] = omega arith
refunds-bid b bs (u ∷ us) =
    let rest = refunds-bid b bs us in
    elim (Bool-cases (b.bidder_id == u)) [
      | inl same ↦ grind (arith, rest, same)
      | inr other ↦ grind (arith, rest, other)
    ]

refunds_none : (uids : List ℕ) → refunds [] uids ≡ 0
unfolding refunds refund_of
refunds_none [] = refl
refunds_none (u ∷ us) = omega (arith, refunds_none us)

once_or_not : (has : Bool) (n m : ℕ) → (if has then 1 else 0) * n + m ≡ (if has then n else 0) + m
once_or_not true n m = omega arith
once_or_not false n m = omega arith

refunds-part :
    (db : Db) (tops bs : List Bid)
    → AllIn (map (λ b. b.bidder_id) tops) bs
    → refunds bs (refunded_users tops db) ≡ backed bs db
unfolding backed
refunds-part db tops [] h = refunds_none (refunded_users tops db)
refunds-part db tops (b ∷ bs) h =
    let bidders = map (λ b. b.bidder_id) (keep (λ b. has_wallet db b.bidder_id) tops) in
    let rest = refunds-part db tops bs h.1 in
    let step = refunds-bid b bs (refunded_users tops db) in
    let once = occurrences-sort_ids b.bidder_id bidders in
    let there = member-bidders db b.bidder_id tops in
    let count : occurrences b.bidder_id (refunded_users tops db)
        ≡ (if has_wallet db b.bidder_id then 1 else 0) =
      once
      ∙ ap (λ (x : Bool). if x then 1 else 0)
          (there ∙ ap (λ x. x && has_wallet db b.bidder_id) (h.0)) in
    step ∙ rw (count, rest) (once_or_not (has_wallet db b.bidder_id) b.amount (backed bs db))

-- The refunds add up to the amounts of the winning bids whose bidders have a wallet.
pub refunds-backed :
    (db : Db) (tops : List Bid) → refunds tops (refunded_users tops db) ≡ backed tops db
refunds-backed db tops = refunds-part db tops tops (AllIn-self tops)
