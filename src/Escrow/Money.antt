-- ===== src/Escrow/Money.antt =====
-- The money that a settlement moves.
use auctionhaus.Prelude.{
  ℕ, ◌≡◌, ◌≢◌, true, none, ℤ, pos, neg, ◌+ℤ◌, if◌then◌else◌, arith, int_laws, parts_of_eq,
}
use auctionhaus.Schema.{is_direct}
use auctionhaus.Store.{Db, find_wallet, adjust_wallet, log_transaction, create_settlement}
use auctionhaus.Store.Wallets.{
  balance_of, balance_of-adjust, total_balance, find_wallet-adjust_some, total_balance-adjust,
}
use auctionhaus.Tx.{World, ok, wallet_or}
use auctionhaus.Escrow.{Params, Outcome, move_money, settle_within_tx, settle_fresh, is_settled}

-- What one debit and one credit of the same amount leave of the sum.
move_money-total :
    (p : Params) (db : Db)
    → find_wallet p.payer_id db.wallets ≢ none
    → find_wallet p.seller_id db.wallets ≢ none
    → total_balance (move_money p db).wallets ≡ total_balance db.wallets
unfolding move_money
move_money-total p db e f =
    let debit : ℤ = neg (pos p.amount) in
    let hold : ℤ = if is_direct p.kind then pos 0 else debit in
    omega (
      int_laws,
      parts_of_eq _ _ (total_balance-adjust p.payer_id debit hold db.wallets e),
      parts_of_eq _ _ (
          total_balance-adjust p.seller_id (pos p.amount) (pos 0) _
            (find_wallet-adjust_some p.payer_id p.seller_id debit hold db.wallets f)),
    )

-- Each side's balance, where the payer is not the seller.
pub move_money-balances :
    (p : Params) (db : Db)
    → p.payer_id ≢ p.seller_id
    → find_wallet p.payer_id db.wallets ≢ none
    → find_wallet p.seller_id db.wallets ≢ none
    → (balance_of p.payer_id (move_money p db).wallets
        ≡ balance_of p.payer_id db.wallets +ℤ neg (pos p.amount))
      × (balance_of p.seller_id (move_money p db).wallets
          ≡ balance_of p.seller_id db.wallets +ℤ pos p.amount)
unfolding move_money adjust_wallet log_transaction
move_money-balances p db apart e f =
    let debit : ℤ = neg (pos p.amount) in
    let hold : ℤ = if is_direct p.kind then pos 0 else debit in
    let still = find_wallet-adjust_some p.payer_id p.seller_id debit hold db.wallets f in
    let first = λ (u : ℕ). balance_of-adjust p.payer_id u debit hold db.wallets e in
    let second = λ (u : ℕ). balance_of-adjust p.seller_id u (pos p.amount) (pos 0) _ still in
    (
      ground (arith, first p.payer_id, second p.payer_id),
      ground (arith, first p.seller_id, second p.seller_id),
    )

-- Errors come before any write.
pub settle-total_any :
    (p : Params) (w : World)
    → total_balance (settle_within_tx p w).1.db.wallets ≡ total_balance w.db.wallets
unfolding settle_within_tx settle_fresh create_settlement wallet_or
settle-total_any p w = ground (arith, move_money-total p w.db)

-- A settlement neither makes nor loses money, whichever way it ends without an error.
settle-total :
    (p : Params) (w w' : World) {o : Outcome}
    → settle_within_tx p w ≡ (ok o, w')
    → total_balance w'.db.wallets ≡ total_balance w.db.wallets
unfolding settle_within_tx create_settlement
settle-total p w w' h = ground (arith, move_money-total p w.db)

-- Once a settlement of an auction has succeeded, every further settlement of that auction, with
-- whatever parties and amount, answers that it was settled, with the same amount, and changes nothing.
pub settle_again :
    (p q : Params) (w w' : World) {o : Outcome}
    → q.auction_id ≡ p.auction_id
    → settle_within_tx p w ≡ (ok o, w')
    → settle_within_tx q w' ≡ (ok (record { already_settled = true; amount = o.amount }), w')
unfolding settle_within_tx create_settlement
settle_again p q w w' same h = ground arith

-- A settlement that succeeds leaves the auction settled.
pub settle-settles :
    (p : Params) (w : World) (o : Outcome)
    → (settle_within_tx p w).0 ≡ ok o
    → is_settled p.auction_id (settle_within_tx p w).1.db ≡ true
unfolding settle_within_tx settle_fresh is_settled wallet_or create_settlement move_money
    adjust_wallet log_transaction
settle-settles p w o h = ground arith
