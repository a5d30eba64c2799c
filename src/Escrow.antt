-- ===== src/Escrow.antt =====
-- back/src/modules/escrow/escrow.service.ts: the one path that moves money from a buyer to a seller.
pub mod Money
pub mod Holds
mod Tests
use auctionhaus.Prelude.{
  ℕ, Bool, true, false, ◌&&◌, not, Option, none, some, ℤ, pos, neg, ltb_ℤ, if◌then◌else◌,
}
use auctionhaus.Schema.{Settlement, SettlementKind, TransactionType, is_direct}
use auctionhaus.Store.{Db, find_settlement, adjust_wallet, log_transaction, create_settlement}
use auctionhaus.Tx.{
  Tx, pure, gets, guard, modify, raise, wallet_or, lock_pair, ◌>>=◌, ◌>>◌, insufficient_balance,
  payer_wallet_not_found, seller_wallet_not_found,
}

pub record Params : Type 0 where
  pub auction_id : ℕ
  pub payer_id : ℕ
  pub seller_id : ℕ
  pub amount : ℕ
  pub kind : SettlementKind

pub record Outcome : Type 0 where
  pub already_settled : Bool
  pub amount : ℕ

unfoldable pub is_settled : ℕ → Db → Bool
unfolding find_settlement
is_settled auction_id db = elim (find_settlement auction_id db.settlements) [
  | none ↦ false
  | some _ ↦ true
]

-- The payer's debit, the seller's credit and the paired PAYMENT rows.
unfoldable pub move_money : Params → Db → Db
unfolding adjust_wallet log_transaction
move_money p db = credited
  where
    debit : ℤ
    debit = neg (pos p.amount)

    debited : Db
    debited = adjust_wallet p.payer_id debit (if is_direct p.kind then pos 0 else debit) db

    paid : Db
    paid = adjust_wallet p.seller_id (pos p.amount) (pos 0) debited

    credited : Db
    credited =
        log_transaction p.seller_id TransactionType.payment (pos p.amount) (some p.auction_id)
          (log_transaction p.payer_id TransactionType.payment debit (some p.auction_id) paid)

abbrev pub settlement_row : Params → Settlement
settlement_row p = record {
  auction_id = p.auction_id;
  seller_id = p.seller_id;
  party_id = p.payer_id;
  amount = p.amount;
  kind = p.kind;
}

-- From the wallet locks on. The insert fails (P2002) if the auction has a row by now.
unfoldable pub settle_fresh : Params → Tx Outcome
unfolding is_settled wallet_or move_money create_settlement
settle_fresh p = do
  lock_pair p.payer_id p.seller_id
  payer ← wallet_or payer_wallet_not_found p.payer_id
  guard (not (is_direct p.kind && ltb_ℤ payer.balance (pos p.amount))) insufficient_balance
  seller ← wallet_or seller_wallet_not_found p.seller_id
  duplicate ← gets (is_settled p.auction_id)
  if duplicate
      then pure (record { already_settled = true; amount = p.amount })
      else (modify (λ db. move_money p (create_settlement (settlement_row p) db))
          >> pure (record { already_settled = false; amount = p.amount }))

-- `settleWithinTx`
unfoldable pub settle_within_tx : Params → Tx Outcome
unfolding settle_fresh find_settlement
settle_within_tx p = do
  existing ← gets (λ db. find_settlement p.auction_id db.settlements)
  elim existing [
    | some s ↦ pure (record { already_settled = true; amount = s.amount })
    | none ↦ settle_fresh p
  ]
