-- ===== src/Client/Sealed.antt =====
-- The commitment panel of front/src/app/auctions/[id]/_components/CommitmentPanel.tsx, with the server
-- behind it. Amounts are cents, of two decimals; SHA-256 is the same parameter on both sides, and the random bytes of
-- the nonce are an argument. What is kept under `ah_commit_<auctionId>` is the panel's state.
pub mod Opens
mod Tests
use auctionhaus.Prelude.{
  ℕ, ◌/◌, ◌%◌, Bool, true, false, Option, none, some, List, [], ◌∷◌, leb, ◌==◌, if◌then◌else◌,
}
use auctionhaus.Tx.{World, ok}
use auctionhaus.Commitments.{two_decimals, hex_digit, opening_text}
use auctionhaus.Commitments.Requests.{answered, commit_request, reveal_request}

-- `b.toString(16).padStart(2, "0")`, for a byte.
abbrev pub byte_hex : ℕ → List ℕ → List ℕ
byte_hex b rest = hex_digit (b / 16) ∷ hex_digit (b % 16) ∷ rest

-- `randomNonce`, for the bytes that were drawn.
unfoldable pub random_nonce : List ℕ → List ℕ
random_nonce [] = []
random_nonce (b ∷ bs) = byte_hex b (random_nonce bs)

pub record StoredCommit : Type 0 where
  pub amount : ℕ
  pub nonce : List ℕ
  pub hash : List ℕ

-- What the panel shows: nothing, its own refusals, or what the server said.
pub data Notice : Type 0 where
  quiet not_above_start no_amount no_nonce done failed : Notice

-- The panel's state: what is stored, which also fills in the form, and the last notice.
pub record Panel : Type 0 where
  pub stored : Option StoredCommit
  pub reveal_amount : ℕ
  pub reveal_nonce : List ℕ
  pub notice : Notice

-- `useEffect`: the form to reveal is filled from what is stored.
unfoldable pub open_panel : Option StoredCommit → Panel
open_panel stored = elim stored [
  | none ↦ record { stored = none; reveal_amount = 0; reveal_nonce = []; notice = quiet }
  | some c ↦ record {
    stored = some c;
    reveal_amount = c.amount;
    reveal_nonce = c.nonce;
    notice = quiet;
  }
]

abbrev pub is_empty : List ℕ → Bool
is_empty [] = true
is_empty (_ ∷ _) = false

module _ (sha256 : List ℕ → List ℕ) (auction_id bidder_id : ℕ) where
  -- `commit`, for an amount that is a number.
  unfoldable pub commit : ℕ → ℕ → List ℕ → Panel → World → Panel × World
  unfolding random_nonce
  commit starting_price amount bytes p w =
      if leb amount starting_price
      then (record p { notice = not_above_start }, w)
      else let nonce = random_nonce bytes in
        let hash = sha256 (opening_text amount nonce) in
        let (r, w') = commit_request auction_id bidder_id hash w in
        elim r [
          | answered (ok _) ↦ (
            record p {
              stored = some (record { amount = amount; nonce = nonce; hash = hash });
              reveal_amount = amount;
              reveal_nonce = nonce;
              notice = done;
            },
            w',
          )
          | other ↦ (record p { notice = failed }, w')
        ]

  -- `reveal`
  unfoldable pub reveal : ℕ → Panel → World → Panel × World
  reveal now p w =
      if p.reveal_amount == 0
      then (record p { notice = no_amount }, w)
      else if is_empty p.reveal_nonce
      then (record p { notice = no_nonce }, w)
      else let (r, w') =
          reveal_request two_decimals sha256 auction_id bidder_id p.reveal_amount p.reveal_nonce now
            w in
        elim r [
          | answered (ok _) ↦ (record p { stored = none; notice = done }, w')
          | other ↦ (record p { notice = failed }, w')
        ]
