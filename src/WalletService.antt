-- ===== src/WalletService.antt =====
-- back/src/modules/wallet/wallet.service.ts: deposits and withdrawals.
pub mod Laws
mod Tests
use auctionhaus.Prelude.{ℤ, pos, neg, ◌-ℤ◌, ltb_ℤ, leb_ℤ, not, ℕ, none}
use auctionhaus.Schema.{Wallet, TransactionType}
use auctionhaus.Store.{adjust_wallet, log_transaction}
use auctionhaus.Tx.{
  Tx, pure, guard, modify, lock, wallet_row, wallet_or, transaction, ◌>>=◌, ◌>>◌, not_positive,
  over_deposit_limit, wallet_not_found, record_not_found, insufficient_available,
}

-- 100,000 in cents.
abbrev pub deposit_limit : ℤ
deposit_limit = pos 10000000

-- `deposit`. The balance and its ledger row are two writes, with no transaction around them.
unfoldable pub deposit : ℕ → ℤ → Tx Wallet
deposit uid amount = do
  guard (not (leb_ℤ amount (pos 0))) not_positive
  guard (not (ltb_ℤ deposit_limit amount)) over_deposit_limit
  wallet_or record_not_found uid
  modify (adjust_wallet uid amount (pos 0))
  wallet ← wallet_or record_not_found uid
  modify (log_transaction uid TransactionType.deposit amount none)
  pure wallet

unfoldable pub withdraw_body : ℕ → ℤ → Tx Wallet
withdraw_body uid amount = do
  lock (wallet_row uid)
  wallet ← wallet_or wallet_not_found uid
  guard (not (ltb_ℤ (wallet.balance -ℤ wallet.held_amount) amount)) insufficient_available
  modify (adjust_wallet uid (neg amount) (pos 0))
  updated ← wallet_or record_not_found uid
  modify (log_transaction uid TransactionType.withdrawal (neg amount) none)
  pure updated

-- `withdraw`
unfoldable pub withdraw : ℕ → ℤ → Tx Wallet
withdraw uid amount = do
  guard (not (leb_ℤ amount (pos 0))) not_positive
  transaction (withdraw_body uid amount)
