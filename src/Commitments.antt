-- ===== src/Commitments.antt =====
-- back/src/modules/bidding/commitment.service.ts: a sealed bid is committed to by a hash and revealed
-- after the end. SHA-256 is a parameter: any function from texts to texts. So are the numbers that a
-- reveal comes with, which may have more than two decimals.
pub mod Text
pub mod Binding
pub mod Requests
mod Tests
use auctionhaus.Prelude.{
  ℕ, zero, suc, ◌+◌, ◌-◌, ◌/◌, ◌%◌, Bool, true, false, not, ◌&&◌, ◌||◌, Option, none, some, List,
  [], ◌∷◌, ltb, leb, ◌==◌, if◌then◌else◌, find_first, update_first, keep, map, length,
}
use auctionhaus.Schema.{Auction, Commitment, is_active, is_ended, is_sealed}
use auctionhaus.Store.{Db, find_auction}
use auctionhaus.Tx.{
  Tx, pure, gets, guard, or_raise, modify, ◌>>=◌, ◌>>◌, auction_not_found, auction_not_active,
  own_auction, not_sealed, bad_hash, not_ended, no_commitment, already_revealed, reveal_mismatch,
}

-- The code of a hexadecimal digit, and of `:`.
unfoldable pub hex_digit : ℕ → ℕ
hex_digit d = if ltb d 10 then 48 + d else 87 + d

abbrev pub colon : ℕ
colon = 58

-- The digits of a number in front of a text, on fuel.
unfoldable pub hex_before : ℕ → ℕ → List ℕ → List ℕ
hex_before zero n tail = tail
hex_before (suc fuel) n tail =
    let rest = hex_before fuel (n / 16) (hex_digit (n % 16) ∷ tail) in
    if ltb n 16 then hex_digit n ∷ tail else rest

-- The text that is hashed: the amount in cents in base sixteen, a colon and the nonce.
unfoldable pub opening_text : ℕ → List ℕ → List ℕ
unfolding hex_before
opening_text cents nonce = hex_before (suc cents) cents (colon ∷ nonce)

-- `===` on texts.
unfoldable pub same_text : List ℕ → List ℕ → Bool
same_text [] [] = true
same_text [] (_ ∷ _) = false
same_text (_ ∷ _) [] = false
same_text (x ∷ xs) (y ∷ ys) = x == y && same_text xs ys

abbrev pub is_hex_digit : ℕ → Bool
is_hex_digit c = (leb 48 c && leb c 57) || (leb 97 c && leb c 102)

unfoldable pub all_hex : List ℕ → Bool
all_hex [] = true
all_hex (c ∷ cs) = is_hex_digit c && all_hex cs

-- `/^[0-9a-f]{64}$/`
unfoldable pub is_digest : List ℕ → Bool
unfolding all_hex
is_digest h = length h == 64 && all_hex h

abbrev pub made_by : ℕ → ℕ → Commitment → Bool
made_by auction_id bidder_id c = c.auction_id == auction_id && c.bidder_id == bidder_id

abbrev pub new_commitment : ℕ → ℕ → List ℕ → ℕ → Commitment
new_commitment auction_id bidder_id hash id = record {
  id = id;
  auction_id = auction_id;
  bidder_id = bidder_id;
  commit_hash = hash;
  revealed_amount = none;
  revealed_nonce = none;
  revealed_at = none;
  is_valid = none;
}

-- The `upsert` on the pair of auction and bidder.
unfoldable pub store_commitment : ℕ → ℕ → List ℕ → Db → Db
unfolding find_first update_first
store_commitment auction_id bidder_id hash db =
    elim (find_first (made_by auction_id bidder_id) db.commitments) [
      | some _ ↦ record db {
        commitments =
            update_first (made_by auction_id bidder_id)
              (λ c. new_commitment c.auction_id c.bidder_id hash c.id) db.commitments;
      }
      | none ↦ record db {
        commitments = new_commitment auction_id bidder_id hash db.next_id ∷ db.commitments;
        next_id = db.next_id + 1;
      }
    ]

-- `commitBid`
unfoldable pub commit_bid : ℕ → ℕ → List ℕ → Tx (Unit {0})
commit_bid auction_id bidder_id hash = do
  row ← gets (λ db. find_auction auction_id db.auctions)
  a ← or_raise row auction_not_found
  guard (is_sealed a.kind) not_sealed
  guard (is_active a.status) auction_not_active
  guard (not (a.seller_id == bidder_id)) own_auction
  guard (is_digest hash) bad_hash
  modify (store_commitment auction_id bidder_id hash)

abbrev pub is_open : Commitment → Bool
is_open c = elim c.is_valid [ none ↦ true | some _ ↦ false ]

abbrev pub revealed : ℕ → List ℕ → ℕ → Bool → Commitment → Commitment
revealed cents nonce now valid c = record c {
  revealed_at = some now;
  revealed_amount = if valid then some cents else none;
  revealed_nonce = some nonce;
  is_valid = some valid;
}

-- Floating-point amounts: the test of `z.number().positive()`, `toCents`, which is
-- `Math.round(amount * 100)`, and the cents of the row for `D(amount)`, in a column of two decimals.
pub record Amounts : Type 1 where
  pub Number : Type 0
  pub is_positive : Number → Bool
  pub to_cents : Number → ℕ
  pub in_row : Number → ℕ

-- Amounts of two decimals, in cents: both roundings leave them as they are.
abbrev pub two_decimals : Amounts
two_decimals = record { Number = ℕ; is_positive = λ n. ltb 0 n; to_cents = λ n. n; in_row = λ n. n }

-- `hashCommitment`
unfoldable pub hash_commitment : (List ℕ → List ℕ) → ℕ → List ℕ → List ℕ
hash_commitment sha256 cents nonce = sha256 (opening_text cents nonce)

module _ (A : Amounts) (sha256 : List ℕ → List ℕ) where
  -- `revealBid`. The row is written, in no transaction, before a mismatch is thrown.
  unfoldable pub reveal_bid : ℕ → ℕ → A.Number → List ℕ → ℕ → Tx (Unit {0})
  unfolding find_first update_first
  reveal_bid auction_id bidder_id amount nonce now = do
    row ← gets (λ db. find_auction auction_id db.auctions)
    a ← or_raise row auction_not_found
    guard (is_sealed a.kind) not_sealed
    guard (is_ended a.status) not_ended
    found ← gets (λ db. find_first (made_by auction_id bidder_id) db.commitments)
    c ← or_raise found no_commitment
    guard (is_open c) already_revealed
    modify (λ db. record db {
      commitments =
          update_first (made_by auction_id bidder_id)
            (revealed (A.in_row amount) nonce now
              (same_text (hash_commitment sha256 (A.to_cents amount) nonce) c.commit_hash))
            db.commitments;
    })
    guard (same_text (hash_commitment sha256 (A.to_cents amount) nonce) c.commit_hash)
        reveal_mismatch

-- `getCommitments`: an amount is shown after the end only. (Bidders' names are left out.)
abbrev pub shown : Bool → Commitment → Commitment
shown ended c = if ended then c else record c { revealed_amount = none }

unfoldable pub get_commitments : ℕ → Tx (List Commitment)
get_commitments auction_id = do
  row ← gets (λ db. find_auction auction_id db.auctions)
  a ← or_raise row auction_not_found
  gets (λ db.
      map (shown (is_ended a.status)) (keep (λ c. c.auction_id == auction_id) db.commitments))
