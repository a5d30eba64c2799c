-- ===== src/Payment.antt =====
-- back/src/modules/payments/payment.service.ts: the winner confirms the payment by hand.
pub mod Laws
mod Tests
use auctionhaus.Prelude.{ℕ, Bool, true, false, ◌&&◌, ◌||◌, Option, none, some, ◌==◌, keep}
use auctionhaus.Schema.{Auction, Bid, BidStatus, NotificationType, is_ended, is_winning, is_won}
use auctionhaus.Store.{find_settlement, set_bid_status}
use auctionhaus.Escrow.{Outcome, settle_within_tx}
use auctionhaus.Closing.{by_amount, first_bid, won_by}
use auctionhaus.Tx.{
  Tx, pure, gets, guard, or_raise, modify, emit, notify, lock_auction, transaction, ◌>>=◌, ◌>>◌,
  not_winner, not_ended, winning_bid_not_found,
}

abbrev pub is_user : ℕ → Option ℕ → Bool
is_user uid none = false
is_user uid (some v) = v == uid

-- `where: { auctionId, bidderId: winnerId, status: { in: ['WINNING', 'WON'] } }`
abbrev pub is_payable : ℕ → ℕ → Bid → Bool
is_payable auction_id winner_id b =
    b.auction_id == auction_id
    && b.bidder_id == winner_id
    && (is_winning b.status || is_won b.status)

unfoldable pub pay : Auction → ℕ → Tx Outcome
pay a winner_id = do
  found ← gets (λ db. first_bid (by_amount (keep (is_payable a.id winner_id) db.bids)))
  b ← or_raise found winning_bid_not_found
  done ← settle_within_tx (won_by a b)
  modify (set_bid_status b.id BidStatus.won)
  emit (notify a.seller_id NotificationType.payment_received)
  pure (record { already_settled = false; amount = done.amount })

unfoldable pub confirm_body : Auction → ℕ → Tx Outcome
confirm_body a winner_id = do
  guard (is_user winner_id a.winner_id) not_winner
  guard (is_ended a.status) not_ended
  existing ← gets (λ db. find_settlement a.id db.settlements)
  elim existing [
    | some s ↦ pure (record { already_settled = true; amount = s.amount })
    | none ↦ pay a winner_id
  ]

-- `confirmWinnerPayment`. `alreadyProcessed` is `already_settled` of the answer.
unfoldable pub confirm_winner_payment : ℕ → ℕ → Tx Outcome
confirm_winner_payment auction_id winner_id =
    transaction (lock_auction auction_id >>= λ a. confirm_body a winner_id)
