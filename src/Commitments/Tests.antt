-- ===== src/Commitments/Tests.antt =====
-- A commitment and its reveal, with the identity in place of SHA-256.
use auctionhaus.Prelude.{
  ℕ, ◌+◌, ◌/◌, ltb, map, some, ◌≡◌, refl, List, [], ◌∷◌, ◌⊎◌, find_first, update_first,
}
use auctionhaus.Schema.{Auction, AuctionStatus, Commitment}
use auctionhaus.Store.{find_auction}
use auctionhaus.Tx.{World, Result, ok, err, already_revealed, reveal_mismatch}
use auctionhaus.Commitments.{
  Amounts, two_decimals, hex_digit, hex_before, opening_text, same_text, hash_commitment,
  reveal_bid, new_commitment,
}
use auctionhaus.Commitments.Binding.{Collides, reveal_bid-binding, reveal_bid_once}
use auctionhaus.Scenario.{alice, sealed_auction, market, opened}

abbrev plain : List ℕ → List ℕ
plain text = text

-- 1500 cents are 5dc in base sixteen; the nonce is one character.
abbrev opening : List ℕ
opening = 53 ∷ 100 ∷ 99 ∷ 58 ∷ 120 ∷ []

abbrev bid_cents : ℕ
bid_cents = 1500

abbrev nonce : List ℕ
nonce = 120 ∷ []

abbrev over : Auction
over = record sealed_auction { status = AuctionStatus.ended }

abbrev commitment : Commitment
commitment = new_commitment 12 alice opening 30

abbrev committed : World
committed = record opened {
  db = record market { auctions = over ∷ []; commitments = commitment ∷ [] };
}

run_reveal : ℕ → World → Result (Unit {0}) × World
unfolding find_auction find_first update_first hex_digit hex_before opening_text same_text
    hash_commitment reveal_bid
run_reveal cents w = reveal_bid two_decimals plain 12 alice cents nonce 40 w

reveals : (run_reveal 1500 committed).0 ≡ ok tt
unfolding run_reveal
reveals = refl

-- A bidder who mistypes the amount cannot try again.
mistyped : (run_reveal 1501 committed).0 ≡ err reveal_mismatch
unfolding run_reveal
mistyped = refl

-- Amounts in tenths of a cent, rounded to the nearest cent, the half up in the row, while the double
-- of 8.165 times 100 is less than 816.5.
abbrev finer : Amounts
finer = record {
  Number = ℕ;
  is_positive = λ n. ltb 0 n;
  to_cents = λ n. (n + 4) / 10;
  in_row = λ n. (n + 5) / 10;
}

run_finer : ℕ → World → Result (Unit {0}) × World
unfolding find_auction find_first update_first hex_digit hex_before opening_text same_text
    hash_commitment reveal_bid
run_finer amount w = reveal_bid finer plain 12 alice amount nonce 40 w

-- 15.000 and 15.004 both open the commitment to 15.00.
reveal_bid-binding_example :
    (((15000 + 4) / 10 ≡ (15004 + 4) / 10) × (nonce ≡ nonce)) ⊎ Collides plain
unfolding run_finer
reveal_bid-binding_example =
    reveal_bid-binding finer plain 12 alice 40 40 15000 15004 nonce nonce committed
      (run_finer 15000 committed).1 (run_finer 15004 committed).1 commitment refl refl refl

-- 15.005 opens it too, and the row then holds 15.01.
reveals_more :
    map (λ c. c.revealed_amount) (run_finer 15005 committed).1.db.commitments ≡ some 1501 ∷ []
unfolding run_finer
reveals_more = refl

reveal_bid_once_example : (run_reveal 1500 (run_reveal 1501 committed).1).0 ≡ err already_revealed
unfolding run_reveal
reveal_bid_once_example =
    reveal_bid_once two_decimals plain 12 alice 40 40 1501 1500 nonce nonce committed over
      commitment refl refl refl refl
