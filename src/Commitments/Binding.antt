-- ===== src/Commitments/Binding.antt =====
-- What a commitment holds its bidder to.
use auctionhaus.Prelude.{
  ℕ, ◌≡◌, ◌≢◌, ◌∙◌, sym, refl, true, false, Bool-cases, some, ◌⊎◌, inl, inr, List, [], ◌∷◌, arith,
  find_first, update_first,
}
use auctionhaus.Schema.{Auction, Commitment, is_ended, is_sealed}
use auctionhaus.Store.{find_auction}
use auctionhaus.Tx.{World, ok, err, already_revealed}
use auctionhaus.Commitments.{
  Amounts, opening_text, same_text, made_by, is_open, revealed, hash_commitment, reveal_bid,
}
use auctionhaus.Commitments.Text.{opening_text-injective, same_text→eq, same_text_refl}

-- Two texts with one hash.
abbrev pub Collides : (List ℕ → List ℕ) → Type 0
Collides sha256 = (x : List ℕ) × (y : List ℕ) × (x ≢ y) × (sha256 x ≡ sha256 y)

pub find_first-update :
    (auction_id bidder_id : ℕ) (f : Commitment → Commitment) (cs : List Commitment) (c : Commitment)
    → (f c).auction_id ≡ c.auction_id
    → (f c).bidder_id ≡ c.bidder_id
    → find_first (made_by auction_id bidder_id) cs ≡ some c
    → find_first (made_by auction_id bidder_id) (update_first (made_by auction_id bidder_id) f cs)
      ≡ some (f c)
unfolding find_first update_first
find_first-update auction_id bidder_id f [] c e e' h = cc
find_first-update auction_id bidder_id f (x ∷ xs) c e e' h =
    elim (Bool-cases (made_by auction_id bidder_id x)) [
      | inl hit ↦
          let same : x ≡ c = ground arith in
          let again : made_by auction_id bidder_id (f c) ≡ true = ground arith in
          rw (hit, same, again) refl
      | inr miss ↦
          rw (miss, miss) (find_first-update auction_id bidder_id f xs c e e' (ground arith))
    ]

module _ (sha256 : List ℕ → List ℕ) where
  hash_commitment-binding :
      (cents other : ℕ) (nonce other_nonce : List ℕ)
      → hash_commitment sha256 cents nonce ≡ hash_commitment sha256 other other_nonce
      → ((cents ≡ other) × (nonce ≡ other_nonce)) ⊎ Collides sha256
  unfolding hash_commitment
  hash_commitment-binding cents other nonce other_nonce h =
      let x = opening_text cents nonce in
      let y = opening_text other other_nonce in
      elim (Bool-cases (same_text x y)) [
        | inl same ↦
            inl (opening_text-injective cents other nonce other_nonce (same_text→eq x y same))
        | inr apart ↦ inr (x, y, (λ e. differ x y apart e), h)
      ]
    where
      differ : (x y : List ℕ) → same_text x y ≡ false → x ≢ y
      differ x y apart e = ground (arith, same_text_refl x)

module _ (A : Amounts) (sha256 : List ℕ → List ℕ) where
  reveal_bid-hash :
      (auction_id bidder_id now : ℕ) (amount : A.Number) (nonce : List ℕ) (w w' : World)
      (c : Commitment)
      → find_first (made_by auction_id bidder_id) w.db.commitments ≡ some c
      → reveal_bid A sha256 auction_id bidder_id amount nonce now w ≡ (ok tt, w')
      → hash_commitment sha256 (A.to_cents amount) nonce ≡ c.commit_hash
  unfolding reveal_bid
  reveal_bid-hash auction_id bidder_id now amount nonce w w' c e h = same_text→eq _ _ (ground arith)

  -- A commitment opens in one way: if in one state two reveals for a bidder would both succeed, they
  -- are of amounts that round to the same number of cents, with the same nonce, or else two different
  -- texts with one hash are found.
  pub reveal_bid-binding :
      (auction_id bidder_id now later : ℕ) (amount other : A.Number) (nonce other_nonce : List ℕ)
      (w v v' : World) (c : Commitment)
      → find_first (made_by auction_id bidder_id) w.db.commitments ≡ some c
      → reveal_bid A sha256 auction_id bidder_id amount nonce now w ≡ (ok tt, v)
      → reveal_bid A sha256 auction_id bidder_id other other_nonce later w ≡ (ok tt, v')
      → ((A.to_cents amount ≡ A.to_cents other) × (nonce ≡ other_nonce)) ⊎ Collides sha256
  reveal_bid-binding auction_id bidder_id now later amount other nonce other_nonce w v v' c e h h' =
      hash_commitment-binding sha256 (A.to_cents amount) (A.to_cents other) nonce other_nonce (
        reveal_bid-hash auction_id bidder_id now amount nonce w v c e h
        ∙ sym (reveal_bid-hash auction_id bidder_id later other other_nonce w v' c e h'))

  -- On an ended sealed auction with a commitment of the bidder: after a reveal, whether it matched the
  -- hash or not, every further reveal for that bidder is refused as already revealed.
  pub reveal_bid_once :
      (auction_id bidder_id now later : ℕ) (amount other : A.Number) (nonce other_nonce : List ℕ)
      (w : World) (a : Auction) (c : Commitment)
      → find_auction auction_id w.db.auctions ≡ some a
      → is_sealed a.kind ≡ true
      → is_ended a.status ≡ true
      → find_first (made_by auction_id bidder_id) w.db.commitments ≡ some c
      → (reveal_bid A sha256 auction_id bidder_id other other_nonce later
          (reveal_bid A sha256 auction_id bidder_id amount nonce now w).1).0
        ≡ err already_revealed
  unfolding reveal_bid
  reveal_bid_once auction_id bidder_id now later amount other nonce other_nonce w a c row sealed
        ended e =
      let valid = same_text (hash_commitment sha256 (A.to_cents amount) nonce) c.commit_hash in
      let after =
        find_first-update auction_id bidder_id (revealed (A.in_row amount) nonce now valid)
          w.db.commitments c refl refl e in
      elim (Bool-cases (is_open c)) [
        | inl open_ ↦ ground (arith, after)
        | inr closed ↦ ground arith
      ]
