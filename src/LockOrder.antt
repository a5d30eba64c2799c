-- ===== src/LockOrder.antt =====
-- The order in which the transactions of the services lock rows (the comment at the head of `placeBid`
-- in back/src/modules/bidding/bid.service.ts states it).
pub mod Transactions
mod Tests
use auctionhaus.Prelude.{
  ℕ, suc, ◌≡◌, refl, Bool, true, false, ◌&&◌, List, [], ◌∷◌, ltb, leb, ◌==◌, if◌then◌else◌, arith,
}
use auctionhaus.Tx.{Lock, auction_row, wallet_row, insert_id, sort_ids, wallet_locks}

-- The global order: auctions before wallets, wallets by the user's id.
unfoldable pub lock_rank : Lock → ℕ
lock_rank (auction_row _) = 0
lock_rank (wallet_row uid) = suc uid

unfoldable pub is_after : Lock → List Lock → Bool
is_after l [] = true
is_after l (m ∷ ls) = ltb (lock_rank m) (lock_rank l)

-- Each lock, the last one first, comes after the one before it.
unfoldable pub in_order : List Lock → Bool
in_order [] = true
in_order (l ∷ ls) = is_after l ls && in_order ls

-- Users in strictly ascending order, whose wallets come after rank `n`.
unfoldable ascending : ℕ → List ℕ → Bool
ascending n [] = true
ascending n (i ∷ is) = ltb n (suc i) && ascending (suc i) is

ascending-insert_id :
    (n i : ℕ) (is : List ℕ)
    → ltb n (suc i) ≡ true
    → ascending n is ≡ true
    → ascending n (insert_id i is) ≡ true
unfolding ascending insert_id
ascending-insert_id n i [] low up = ground arith
ascending-insert_id n i (j ∷ js) low up = grind (arith, ascending-insert_id (suc j) i js)

ascending-sort_ids : (is : List ℕ) → ascending 0 (sort_ids is) ≡ true
unfolding ascending sort_ids
ascending-sort_ids [] = refl
ascending-sort_ids (i ∷ is) =
    ascending-insert_id 0 i (sort_ids is) (ground arith) (ascending-sort_ids is)

in_order-wallet_locks :
    (uids : List ℕ) (l : Lock) (ls : List Lock)
    → in_order (l ∷ ls) ≡ true
    → ascending (lock_rank l) uids ≡ true
    → in_order (wallet_locks uids (l ∷ ls)) ≡ true
unfolding in_order is_after lock_rank ascending wallet_locks
in_order-wallet_locks [] l ls before up = before
in_order-wallet_locks (uid ∷ uids) l ls before up =
    in_order-wallet_locks uids (wallet_row uid) (l ∷ ls) (ground arith) (ground arith)

-- Sorted users after the auction.
pub in_order-sort_ids :
    (id : ℕ) (uids : List ℕ) → in_order (wallet_locks (sort_ids uids) (auction_row id ∷ [])) ≡ true
unfolding in_order is_after lock_rank
in_order-sort_ids id uids =
    in_order-wallet_locks (sort_ids uids) (auction_row id) [] refl (ascending-sort_ids uids)
