-- ===== src/WalletService/Laws.antt =====
-- What deposits and withdrawals do, and what they leave alone.
use auctionhaus.Prelude.{
  ℕ, List, ℤ, pos, neg, ◌+ℤ◌, ◌-ℤ◌, ◌≤ℤ◌, ◌≡◌, ◌≢◌, ◌==◌, if◌then◌else◌, none, arith, int_laws,
}
use auctionhaus.Schema.{Wallet}
use auctionhaus.Store.{Db, find_wallet, adjust_wallet, log_transaction}
use auctionhaus.Store.Wallets.{
  balance_of, held_of, total_balance, balance_of-adjust, held_of-adjust, total_balance-adjust,
}
use auctionhaus.Tx.{World, ok, err, wallet_or, insufficient_available}
use auctionhaus.WalletService.{deposit_limit, deposit, withdraw_body, withdraw}
use auctionhaus.Bidding.Wallets.{IsSolvent}

-- What a successful call has changed in the wallets: one balance, by an amount.
pub record Booked (uid : ℕ) (amount : ℤ) (old new : List Wallet) : Type 0 where
  pub balances :
      (u : ℕ)
      → balance_of u new ≡ (if uid == u then balance_of u old +ℤ amount else balance_of u old)
  pub holds : (u : ℕ) → held_of u new ≡ held_of u old
  pub total : total_balance new ≡ total_balance old +ℤ amount

Booked-adjust :
    (uid : ℕ) (amount : ℤ) (db : Db)
    → find_wallet uid db.wallets ≢ none
    → Booked uid amount db.wallets (adjust_wallet uid amount (pos 0) db).wallets
unfolding adjust_wallet
Booked-adjust uid amount db present = record {
  balances = λ u. balance_of-adjust uid u amount (pos 0) db.wallets present;
  holds = λ u. grind (int_laws, held_of-adjust uid u amount (pos 0) db.wallets present);
  total = total_balance-adjust uid amount (pos 0) db.wallets present;
}

deposit-effect :
    (uid : ℕ) (amount : ℤ) (w w' : World) {x : Wallet}
    → deposit uid amount w ≡ (ok x, w')
    → (find_wallet uid w.db.wallets ≢ none)
      × (w'.db.wallets ≡ (adjust_wallet uid amount (pos 0) w.db).wallets)
      × (pos 1 ≤ℤ amount)
      × (amount ≤ℤ deposit_limit)
unfolding deposit wallet_or log_transaction
deposit-effect uid amount w w' h = ground arith

-- A deposit that succeeds is positive and within the limit, and adds its amount to one balance.
deposit-Booked :
    (uid : ℕ) (amount : ℤ) (w w' : World) {x : Wallet}
    → deposit uid amount w ≡ (ok x, w')
    → Booked uid amount w.db.wallets w'.db.wallets × (pos 1 ≤ℤ amount) × (amount ≤ℤ deposit_limit)
deposit-Booked uid amount w w' h =
    let (present, e, low, high) = deposit-effect uid amount w w' h in
    (rw e (Booked-adjust uid amount w.db present), low, high)

withdraw-effect :
    (uid : ℕ) (amount : ℤ) (w w' : World) {x : Wallet}
    → withdraw uid amount w ≡ (ok x, w')
    → (find_wallet uid w.db.wallets ≢ none)
      × (w'.db.wallets ≡ (adjust_wallet uid (neg amount) (pos 0) w.db).wallets)
      × (amount ≤ℤ balance_of uid w.db.wallets -ℤ held_of uid w.db.wallets)
      × (pos 1 ≤ℤ amount)
unfolding withdraw withdraw_body wallet_or log_transaction balance_of held_of
withdraw-effect uid amount w w' h = ground arith

-- A withdrawal that succeeds is positive, takes its amount off one balance, and leaves every wallet
-- solvent that was so.
pub withdraw-Booked :
    (uid : ℕ) (amount : ℤ) (w w' : World) {x : Wallet}
    → withdraw uid amount w ≡ (ok x, w')
    → Booked uid (neg amount) w.db.wallets w'.db.wallets
      × (pos 1 ≤ℤ amount)
      × ((u : ℕ) → IsSolvent u w.db.wallets → IsSolvent u w'.db.wallets)
withdraw-Booked uid amount w w' h =
    let (present, e, covered, positive) = withdraw-effect uid amount w w' h in
    let booked : Booked uid (neg amount) w.db.wallets w'.db.wallets =
      rw e (Booked-adjust uid (neg amount) w.db present) in
    (booked, positive, λ u sound. grind (int_laws, booked.balances u, booked.holds u))

-- A positive withdrawal of more than the free balance of an existing wallet fails with the error for
-- it and changes no table.
withdraw_refused :
    (uid : ℕ) (amount : ℤ) (w : World)
    → find_wallet uid w.db.wallets ≢ none
    → pos 1 ≤ℤ amount
    → ¬ (amount ≤ℤ balance_of uid w.db.wallets -ℤ held_of uid w.db.wallets)
    → ((withdraw uid amount w).0 ≡ err insufficient_available)
      × ((withdraw uid amount w).1.db ≡ w.db)
unfolding withdraw withdraw_body wallet_or balance_of held_of
withdraw_refused uid amount w present positive short = ground arith
