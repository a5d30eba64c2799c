-- ===== src/Payment/Laws.antt =====
-- What the confirmation of a payment does.
use auctionhaus.Prelude.{ℕ, ◌≡◌, true, some, Option-cases, inl, inr, arith, keep, [], ◌∷◌}
use auctionhaus.Schema.{Auction, is_ended}
use auctionhaus.Store.{find_auction, find_settlement, set_bid_status}
use auctionhaus.Store.Wallets.{total_balance}
use auctionhaus.Escrow.{Outcome, is_settled}
use auctionhaus.Escrow.Money.{settle-total_any, settle-settles}
use auctionhaus.Closing.{first_bid, by_amount, won_by}
use auctionhaus.Tx.{World, ok, lock_auction, auction_row}
use auctionhaus.Payment.{is_payable, pay, confirm_body, confirm_winner_payment}

-- A confirmation, whichever way it ends, neither makes nor loses money.
pub confirm-total :
    (auction_id winner_id : ℕ) (w : World)
    → total_balance (confirm_winner_payment auction_id winner_id w).1.db.wallets
      ≡ total_balance w.db.wallets
unfolding confirm_winner_payment confirm_body lock_auction pay set_bid_status
confirm-total auction_id winner_id w = grind (arith, settle-total_any)

pay-settles :
    (a : Auction) (winner_id : ℕ) (w : World) (o : Outcome)
    → (pay a winner_id w).0 ≡ ok o
    → is_settled a.id (pay a winner_id w).1.db ≡ true
unfolding pay set_bid_status is_settled
pay-settles a winner_id w o h =
    elim (Option-cases (first_bid (by_amount (keep (is_payable a.id winner_id) w.db.bids)))) [
      | inl nobody ↦ ground arith
      | inr (b, e) ↦ grind (arith, settle-settles (won_by a b) w)
    ]

confirm-settles :
    (auction_id winner_id : ℕ) (w w' : World) (a : Auction) {o : Outcome}
    → find_auction auction_id w.db.auctions ≡ some a
    → confirm_winner_payment auction_id winner_id w ≡ (ok o, w')
    → is_settled a.id w'.db ≡ true
unfolding confirm_winner_payment confirm_body lock_auction is_settled
confirm-settles auction_id winner_id w w' a e h =
    let at_row : World = record w { locks = auction_row auction_id ∷ [] } in
    elim (Option-cases (find_settlement a.id w.db.settlements)) [
      | inl fresh ↦ grind (arith, pay-settles a winner_id at_row)
      | inr (s, settled) ↦ ground arith
    ]

-- A confirmation that succeeds was the recorded winner's, of an ended auction, and leaves the auction
-- settled.
confirm_lem :
    (auction_id winner_id : ℕ) (w w' : World) (a : Auction) {o : Outcome}
    → find_auction auction_id w.db.auctions ≡ some a
    → confirm_winner_payment auction_id winner_id w ≡ (ok o, w')
    → (a.winner_id ≡ some winner_id) × (is_ended a.status ≡ true) × (is_settled a.id w'.db ≡ true)
unfolding confirm_winner_payment confirm_body lock_auction
confirm_lem auction_id winner_id w w' a e h =
    (ground arith, ground arith, confirm-settles auction_id winner_id w w' a e h)
