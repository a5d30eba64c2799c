-- ===== src/Client/Sealed/Opens.antt =====
-- What the panel committed to, it can reveal.
use auctionhaus.Prelude.{
  ℕ, ◌*◌, ◌<◌, ◌≤◌, ◌≡◌, ◌∙◌, ap, [], ◌∷◌, length, refl, true, false, some, none, List, arith,
  find_first, update_first, ◌==◌, Option-cases, inl, inr,
}
use auctionhaus.Schema.{Auction, Commitment, is_sealed, is_ended}
use auctionhaus.Store.{Db, find_auction}
use auctionhaus.Tx.{World, ok}
use auctionhaus.Commitments.{
  two_decimals, made_by, new_commitment, store_commitment, commit_bid, reveal_bid, hash_commitment,
  revealed, is_open, opening_text, same_text,
}
use auctionhaus.Commitments.Requests.{answered, commit_request, reveal_request}
use auctionhaus.Commitments.Binding.{find_first-update}
use auctionhaus.Commitments.Text.{same_text_refl}
use auctionhaus.Client.Sealed.{Panel, open_panel, done, random_nonce, commit, reveal, is_empty}

-- The row after the upsert.
pub record HasRow (auction_id bidder_id : ℕ) (hash : List ℕ) (db : Db) : Type 0 where
  row : Commitment
  found : find_first (made_by auction_id bidder_id) db.commitments ≡ some row
  hashed : row.commit_hash ≡ hash
  unopened : is_open row ≡ true

store-HasRow :
    (auction_id bidder_id : ℕ) (hash : List ℕ) (db : Db)
    → HasRow auction_id bidder_id hash (store_commitment auction_id bidder_id hash db)
unfolding store_commitment find_first
store-HasRow auction_id bidder_id hash db =
    elim (Option-cases (find_first (made_by auction_id bidder_id) db.commitments)) [
      | inl none_yet ↦ record {
        row = new_commitment auction_id bidder_id hash db.next_id;
        found = ground arith;
        hashed = refl;
        unopened = refl;
      }
      | inr (c, e) ↦ record {
        row = new_commitment c.auction_id c.bidder_id hash c.id;
        found = ground (
          arith,
          find_first-update auction_id bidder_id
              (λ x. new_commitment x.auction_id x.bidder_id hash x.id) db.commitments c refl refl e,
        );
        hashed = refl;
        unopened = refl;
      }
    ]

length-random_nonce : (bytes : List ℕ) → length (random_nonce bytes) ≡ 2 * length bytes
unfolding random_nonce
length-random_nonce [] = refl
length-random_nonce (b ∷ bs) = omega (arith, length-random_nonce bs)

module _ (sha256 : List ℕ → List ℕ) (auction_id bidder_id : ℕ) where
  -- What a commitment that succeeds leaves behind, in the browser and in the table.
  record Committed (start amount : ℕ) (bytes : List ℕ) (p : Panel) (w : World) : Type 0 where
    above : start < amount
    kept :
        (commit sha256 auction_id bidder_id start amount bytes p w).0.stored
        ≡ some (record {
          amount = amount;
          nonce = random_nonce bytes;
          hash = sha256 (opening_text amount (random_nonce bytes));
        })
    written :
        (commit sha256 auction_id bidder_id start amount bytes p w).1.db
        ≡ store_commitment auction_id bidder_id
            (sha256 (opening_text amount (random_nonce bytes)))
            w.db

  commit-Committed :
      (start amount : ℕ) (bytes : List ℕ) (p : Panel) (w : World)
      → (commit sha256 auction_id bidder_id start amount bytes p w).0.notice ≡ done
      → Committed start amount bytes p w
  unfolding commit commit_request commit_bid
  commit-Committed start amount bytes p w h = record {
    above = ground arith;
    kept = ground arith;
    written = ground arith;
  }

  -- The tables after a reveal that matches.
  abbrev opened_by : ℕ → ℕ → List ℕ → World → World
  opened_by amount now nonce v = record v {
    db = record v.db {
      commitments =
          update_first (made_by auction_id bidder_id) (revealed amount nonce now true)
            v.db.commitments;
    };
  }

  reveal_bid-opens :
      (amount now : ℕ) (nonce : List ℕ) (v : World) (a : Auction) (c : Commitment)
      → find_auction auction_id v.db.auctions ≡ some a
      → is_sealed a.kind ≡ true
      → is_ended a.status ≡ true
      → find_first (made_by auction_id bidder_id) v.db.commitments ≡ some c
      → c.commit_hash ≡ sha256 (opening_text amount nonce)
      → is_open c ≡ true
      → reveal_bid two_decimals sha256 auction_id bidder_id amount nonce now v
        ≡ (ok tt, opened_by amount now nonce v)
  unfolding reveal_bid hash_commitment
  reveal_bid-opens amount now nonce v a c e sealed ended found hashed unopened =
      let valid : same_text (hash_commitment sha256 amount nonce) c.commit_hash ≡ true =
        rw hashed (same_text_refl (sha256 (opening_text amount nonce))) in
      ground arith

  request-opens :
      (amount now : ℕ) (nonce : List ℕ) (v w : World)
      → 0 < amount
      → 8 ≤ length nonce
      → reveal_bid two_decimals sha256 auction_id bidder_id amount nonce now v ≡ (ok tt, w)
      → reveal_request two_decimals sha256 auction_id bidder_id amount nonce now v
        ≡ (answered (ok tt), w)
  unfolding reveal_request
  request-opens amount now nonce v w h long e = ground arith

  nonempty : (nonce : List ℕ) → 8 ≤ length nonce → is_empty nonce ≡ false
  nonempty [] long = absurd (omega (arith, long))
  nonempty (x ∷ xs) long = refl

  panel-opens :
      (now : ℕ) (p : Panel) (v w : World)
      → 0 < p.reveal_amount
      → 8 ≤ length p.reveal_nonce
      → reveal_request two_decimals sha256 auction_id bidder_id p.reveal_amount p.reveal_nonce now v
        ≡ (answered (ok tt), w)
      → reveal sha256 auction_id bidder_id now p v ≡ (record p { stored = none; notice = done }, w)
  unfolding reveal
  panel-opens now p v w h long e =
      let some_amount : (p.reveal_amount == 0) ≡ false = ground arith in
      rw (some_amount, nonempty p.reveal_nonce long, e)
        (ap (λ x. (record p { stored = none; notice = done }, x.1)) e)

  -- A reveal of an opening of the row that is stored.
  reveal-opens :
      (now : ℕ) (p : Panel) (v : World) (a : Auction) (c : Commitment)
      → 0 < p.reveal_amount
      → 8 ≤ length p.reveal_nonce
      → find_auction auction_id v.db.auctions ≡ some a
      → is_sealed a.kind ≡ true
      → is_ended a.status ≡ true
      → find_first (made_by auction_id bidder_id) v.db.commitments ≡ some c
      → c.commit_hash ≡ sha256 (opening_text p.reveal_amount p.reveal_nonce)
      → is_open c ≡ true
      → reveal sha256 auction_id bidder_id now p v ≡ (
        record p { stored = none; notice = done },
        opened_by p.reveal_amount now p.reveal_nonce v,
      )
  reveal-opens now p v a c pos_ long e sealed ended found hashed unopened =
      panel-opens now p v _ pos_ long (
        request-opens p.reveal_amount now p.reveal_nonce v _ pos_ long (
          reveal_bid-opens p.reveal_amount now p.reveal_nonce v a c e sealed ended found hashed
            unopened))

  -- A bid that the panel committed to with a nonce of 24 bytes opens: in any later state in which the
  -- auction has ended and the bidder's row is as the commitment left it, a panel that is opened anew
  -- on what the browser kept reveals the bid, with success, and the row then holds the amount, marked
  -- as valid.
  pub reveal-commit :
      (start amount now : ℕ) (bytes : List ℕ) (p : Panel) (w v : World) (a : Auction)
      → length bytes ≡ 24
      → (commit sha256 auction_id bidder_id start amount bytes p w).0.notice ≡ done
      → find_auction auction_id v.db.auctions ≡ some a
      → is_sealed a.kind ≡ true
      → is_ended a.status ≡ true
      → find_first (made_by auction_id bidder_id) v.db.commitments
        ≡ find_first
            (made_by auction_id bidder_id)
            (commit sha256 auction_id bidder_id start amount bytes p w).1.db.commitments
      → let after =
          reveal sha256 auction_id bidder_id now
            (open_panel (commit sha256 auction_id bidder_id start amount bytes p w).0.stored)
            v in
        (after.0.notice ≡ done)
        × (c : Commitment) × (find_first (made_by auction_id bidder_id) after.1.db.commitments
            ≡ some c)
        × (c.revealed_amount ≡ some amount)
        × (c.is_valid ≡ some true)
  unfolding open_panel
  reveal-commit start amount now bytes p w v a drawn h e sealed ended kept_row =
      let c : Committed start amount bytes p w = commit-Committed start amount bytes p w h in
      let r = store-HasRow auction_id bidder_id _ w.db in
      let nonce = random_nonce bytes in
      let q : Panel =
        open_panel (commit sha256 auction_id bidder_id start amount bytes p w).0.stored in
      let filled : (q.reveal_amount ≡ amount) × (q.reveal_nonce ≡ nonce) =
        (rw c.kept refl, rw c.kept refl) in
      let found =
        kept_row
        ∙ ap (λ (db : Db). find_first (made_by auction_id bidder_id) db.commitments) c.written
        ∙ r.found in
      let done_ =
        reveal-opens now q v a r.row (omega (arith, filled.0, c.above))
          (rw (filled.1) (omega (arith, length-random_nonce bytes, drawn))) e sealed ended found
          (rw (filled.0, filled.1) r.hashed) r.unopened in
      let row =
        find_first-update auction_id bidder_id (revealed q.reveal_amount q.reveal_nonce now true)
          v.db.commitments r.row refl refl found in
      (
        ap (λ x. x.0.notice) done_,
        revealed q.reveal_amount q.reveal_nonce now true r.row,
        ap (λ x. find_first (made_by auction_id bidder_id) x.1.db.commitments) done_ ∙ row,
        ap some filled.0,
        refl,
      )
