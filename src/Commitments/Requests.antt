-- ===== src/Commitments/Requests.antt =====
-- `commitBid` and `revealBid` of back/src/modules/bidding/bid.controller.ts: the checks of the bodies.
use auctionhaus.Prelude.{ℕ, List, length, leb, ◌==◌, ◌&&◌, if◌then◌else◌}
use auctionhaus.Tx.{World, Result}
use auctionhaus.Commitments.{Amounts, commit_bid, reveal_bid}

-- A body that does not fit its schema is answered by 400 before the service is called.
pub data SealedResponse : Type 0 where
  invalid : SealedResponse
  answered : Result (Unit {0}) → SealedResponse

abbrev pub answer : Result (Unit {0}) × World → SealedResponse × World
answer (r, w) = (answered r, w)

unfoldable pub commit_request : ℕ → ℕ → List ℕ → World → SealedResponse × World
commit_request auction_id bidder_id hash w =
    if length hash == 64 then answer (commit_bid auction_id bidder_id hash w) else (invalid, w)

unfoldable pub reveal_request :
    (A : Amounts)
    → (List ℕ → List ℕ)
    → ℕ
    → ℕ
    → A.Number
    → List ℕ
    → ℕ
    → World
    → SealedResponse × World
reveal_request A sha256 auction_id bidder_id amount nonce now w =
    if A.is_positive amount && leb 8 (length nonce)
    then answer (reveal_bid A sha256 auction_id bidder_id amount nonce now w)
    else (invalid, w)
