-- ===== src/Client/Sealed/Tests.antt =====
-- Alice commits to 15.00 on the sealed auction, the auction ends, and she reveals after a reload. A
-- stand-in for SHA-256 answers 64 hexadecimal digits of the text.
use auctionhaus.Prelude.{
  ℕ, zero, suc, none, ◌%◌, ◌≡◌, refl, some, true, List, [], ◌∷◌, ◌++◌, map, first_n, keep,
  find_first, update_first,
}
use auctionhaus.Schema.{Commitment, Auction, AuctionStatus}
use auctionhaus.Store.{find_auction, update_auction}
use auctionhaus.Tx.{World}
use auctionhaus.Closing.{determine, finish, refund_sealed, by_amount, notify_all, end_auction}
use auctionhaus.Commitments.{
  made_by, hex_digit, hex_before, opening_text, all_hex, is_digest, store_commitment, commit_bid,
}
use auctionhaus.Commitments.Requests.{commit_request}
use auctionhaus.Client.Sealed.{Panel, open_panel, done, random_nonce, commit, reveal}
use auctionhaus.Client.Sealed.Opens.{reveal-commit}
use auctionhaus.Scenario.{alice, sealed_auction, opened}

repeat : ℕ → ℕ → List ℕ
repeat zero x = []
repeat (suc n) x = x ∷ repeat n x

digest : List ℕ → List ℕ
unfolding first_n hex_digit repeat
digest text = first_n 64 (map (λ c. hex_digit (c % 16)) text ++ repeat 64 48)

bytes : List ℕ
unfolding repeat
bytes = repeat 24 171

abbrev empty_panel : Panel
empty_panel = open_panel none

committed : Panel × World
unfolding commit commit_request commit_bid find_auction find_first update_first hex_before is_digest
    opening_text random_nonce store_commitment digest bytes open_panel all_hex
committed = commit digest 12 alice 1000 1500 bytes empty_panel opened

ended : World
unfolding committed end_auction determine finish refund_sealed by_amount keep update_auction
    notify_all
ended = (end_auction 12 [] 2000000 committed.1).1

closed : Auction
closed = record sealed_auction { status = AuctionStatus.ended; actual_end_time = some 2000000 }

closed_row : find_auction 12 ended.db.auctions ≡ some closed
unfolding ended closed
closed_row = refl

-- What the panel shows after a reload, once the auction is over.
revealed_at : ℕ → Panel × World
unfolding committed ended
revealed_at now = reveal digest 12 alice now (open_panel committed.0.stored) ended

reveal-commit_example :
    ((revealed_at 2000100).0.notice ≡ done)
    × (c : Commitment) × (find_first (made_by 12 alice) (revealed_at 2000100).1.db.commitments
        ≡ some c)
    × (c.revealed_amount ≡ some 1500)
    × (c.is_valid ≡ some true)
unfolding committed ended closed revealed_at
reveal-commit_example =
    reveal-commit digest 12 alice 1000 1500 2000100 bytes empty_panel opened ended closed refl refl
      closed_row refl refl refl
