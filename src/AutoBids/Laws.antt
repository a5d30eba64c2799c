-- ===== src/AutoBids/Laws.antt =====
-- What an automatic bid that is set guarantees.
use auctionhaus.Prelude.{
  ℕ, ◌<◌, ◌≤ℤ◌, ◌-ℤ◌, ◌≡◌, ◌≢◌, true, false, Bool-cases, Option-cases, Option, none, some, refl,
  inl, inr, List, [], ◌∷◌, arith, pos, find_first, update_first, ==_refl,
}
use auctionhaus.Schema.{Auction, AutoBid, is_active, is_sealed, is_english, is_dutch}
use auctionhaus.Store.{Db, find_auction}
use auctionhaus.Store.Wallets.{balance_of, held_of}
use auctionhaus.Tx.{World, ok, wallet_or}
use auctionhaus.AutoBids.{is_of, below_reserve, check_max, upsert, set_auto_bid, get_my_auto_bid}

-- What an auction and a wallet must allow.
pub record Allowed (a : Auction) (bidder_id max_amount : ℕ) (db : Db) : Type 0 where
  pub live : is_active a.status ≡ true
  pub not_own : a.seller_id ≢ bidder_id
  pub not_sealed : is_sealed a.kind ≡ false
  pub above : is_english a.kind ≡ true → a.current_price < max_amount
  pub below : is_dutch a.kind ≡ true → max_amount < a.current_price
  pub reserve : is_dutch a.kind ≡ true → below_reserve max_amount a.reserve_price ≡ false
  pub funded : pos max_amount ≤ℤ balance_of bidder_id db.wallets -ℤ held_of bidder_id db.wallets

set_auto_bid-Allowed :
    (auction_id bidder_id max_amount now : ℕ) (w w' : World) (a : Auction) {o : Option AutoBid}
    → find_auction auction_id w.db.auctions ≡ some a
    → set_auto_bid auction_id bidder_id max_amount now w ≡ (ok o, w')
    → Allowed a bidder_id max_amount w.db
unfolding set_auto_bid check_max wallet_or balance_of held_of
set_auto_bid-Allowed auction_id bidder_id max_amount now w w' a e h = record {
  live = ground arith;
  not_own = ground arith;
  not_sealed = ground arith;
  above = λ k. ground arith;
  below = λ k. ground arith;
  reserve = λ k. ground arith;
  funded = ground arith;
}

set_auto_bid-db :
    (auction_id bidder_id max_amount now : ℕ) (w w' : World) {o : Option AutoBid}
    → set_auto_bid auction_id bidder_id max_amount now w ≡ (ok o, w')
    → w'.db ≡ upsert auction_id bidder_id max_amount now w.db
unfolding set_auto_bid check_max wallet_or
set_auto_bid-db auction_id bidder_id max_amount now w w' h = ground arith

-- The row that is read after an upsert.
find_first-update_of :
    (auction_id bidder_id max_amount : ℕ) (abs : List AutoBid)
    → find_first (is_of auction_id bidder_id) abs ≢ none
    → (ab : AutoBid) × (find_first (is_of auction_id bidder_id) (
          update_first
            (is_of auction_id bidder_id)
            (λ x. record x { max_amount = max_amount; is_active = true })
            abs)
        ≡ some ab)
      × (ab.max_amount ≡ max_amount)
      × (ab.is_active ≡ true)
unfolding find_first update_first
find_first-update_of auction_id bidder_id max_amount [] h = absurd (h refl)
find_first-update_of auction_id bidder_id max_amount (x ∷ xs) h =
    elim (Bool-cases (is_of auction_id bidder_id x)) [
      | inl hit ↦ (record x { max_amount = max_amount; is_active = true }, ground arith, refl, refl)
      | inr miss ↦
          let (ab, found, amount, on) =
            find_first-update_of auction_id bidder_id max_amount xs (ground arith) in
          (ab, ground arith, amount, on)
    ]

abbrev fresh_row : ℕ → ℕ → ℕ → ℕ → Db → AutoBid
fresh_row auction_id bidder_id max_amount now db = record {
  id = db.next_id;
  auction_id = auction_id;
  bidder_id = bidder_id;
  max_amount = max_amount;
  current_bid = 0;
  is_active = true;
  created_at = now;
}

find_first-fresh :
    (auction_id bidder_id max_amount now : ℕ) (db : Db)
    → find_first
        (is_of auction_id bidder_id)
        (fresh_row auction_id bidder_id max_amount now db ∷ db.auto_bids)
      ≡ some (fresh_row auction_id bidder_id max_amount now db)
unfolding find_first
find_first-fresh auction_id bidder_id max_amount now db =
    ground (arith, ==_refl auction_id, ==_refl bidder_id)

get_my_auto_bid-upsert :
    (auction_id bidder_id max_amount now : ℕ) (db : Db)
    → (ab : AutoBid) × (get_my_auto_bid auction_id bidder_id
          (upsert auction_id bidder_id max_amount now db)
        ≡ some ab)
      × (ab.max_amount ≡ max_amount)
unfolding get_my_auto_bid upsert
get_my_auto_bid-upsert auction_id bidder_id max_amount now db =
    elim (Option-cases (find_first (is_of auction_id bidder_id) db.auto_bids)) [
      | inl new ↦ (
        fresh_row auction_id bidder_id max_amount now db,
        ground (arith, find_first-fresh auction_id bidder_id max_amount now db),
        refl,
      )
      | inr (x, old) ↦
          let (ab, found, amount, on) =
            find_first-update_of auction_id bidder_id max_amount db.auto_bids (ground arith) in
          (ab, ground arith, amount)
    ]

-- An automatic bid that is set was allowed: the auction is live, not the bidder's own and not sealed,
-- the maximum is above an English price, below a Dutch price and not below its reserve, and the free
-- balance covers it. The bidder then reads it back, active and with that maximum.
set_auto_bid_lem :
    (auction_id bidder_id max_amount now : ℕ) (w w' : World) (a : Auction) {o : Option AutoBid}
    → find_auction auction_id w.db.auctions ≡ some a
    → set_auto_bid auction_id bidder_id max_amount now w ≡ (ok o, w')
    → Allowed a bidder_id max_amount w.db
      × ((ab : AutoBid) × (get_my_auto_bid auction_id bidder_id w'.db ≡ some ab)
          × (ab.max_amount ≡ max_amount))
set_auto_bid_lem auction_id bidder_id max_amount now w w' a e h =
    let (ab, found, amount) = get_my_auto_bid-upsert auction_id bidder_id max_amount now w.db in
    (
      set_auto_bid-Allowed auction_id bidder_id max_amount now w w' a e h,
      (ab, rw (set_auto_bid-db auction_id bidder_id max_amount now w w' h) found, amount),
    )
