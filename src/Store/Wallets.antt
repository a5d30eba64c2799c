-- ===== src/Store/Wallets.antt =====
-- Wallet rows: what an update of one wallet does to every user's columns and to the sum.
use mathlib.Core.Option
use auctionhaus.Prelude.{
  ℕ, ◌≡◌, ◌≢◌, refl, none, some, List, [], ◌∷◌, ℤ, pos, ◌+ℤ◌, ◌==◌, if◌then◌else◌, sum_of, arith,
  int_laws,
}
use auctionhaus.Schema.{Wallet, BidStatus}
use auctionhaus.Store.{Db, find_wallet, adjust, set_bid_status}

-- `wallet.balance` of a user, zero for a user with no wallet.
unfoldable pub balance_of : ℕ → List Wallet → ℤ
balance_of uid ws = elim (find_wallet uid ws) [ none ↦ pos 0 | some w ↦ w.balance ]

-- `wallet.heldAmount` of a user, zero for a user with no wallet.
unfoldable pub held_of : ℕ → List Wallet → ℤ
held_of uid ws = elim (find_wallet uid ws) [ none ↦ pos 0 | some w ↦ w.held_amount ]

-- The money of all users.
unfoldable pub total_balance : List Wallet → ℤ
unfolding sum_of
total_balance = sum_of (λ w. w.balance)

abbrev pub bump : ℤ → ℤ → Wallet → Wallet
bump credit hold w = record w { balance = w.balance +ℤ credit; held_amount = w.held_amount +ℤ hold }

pub find_wallet-adjust :
    (uid other : ℕ) (credit hold : ℤ) (ws : List Wallet)
    → find_wallet other (adjust uid credit hold ws) ≡ (
        if uid == other
        then Option.map (bump credit hold) (find_wallet other ws)
        else find_wallet other ws)
unfolding find_wallet adjust
find_wallet-adjust uid other credit hold [] = ground arith
find_wallet-adjust uid other credit hold (x ∷ ws) =
    ground (arith, find_wallet-adjust uid other credit hold ws)

-- An update of one wallet removes nobody's.
pub find_wallet-adjust_some :
    (uid other : ℕ) (credit hold : ℤ) (ws : List Wallet)
    → find_wallet other ws ≢ none
    → find_wallet other (adjust uid credit hold ws) ≢ none
find_wallet-adjust_some uid other credit hold ws present =
    ground (arith, find_wallet-adjust uid other credit hold ws)

pub held_of-adjust :
    (uid other : ℕ) (credit hold : ℤ) (ws : List Wallet)
    → find_wallet uid ws ≢ none
    → held_of other (adjust uid credit hold ws)
      ≡ (if uid == other then held_of other ws +ℤ hold else held_of other ws)
unfolding held_of
held_of-adjust uid other credit hold ws present =
    ground (arith, find_wallet-adjust uid other credit hold ws)

pub balance_of-adjust :
    (uid other : ℕ) (credit hold : ℤ) (ws : List Wallet)
    → find_wallet uid ws ≢ none
    → balance_of other (adjust uid credit hold ws)
      ≡ (if uid == other then balance_of other ws +ℤ credit else balance_of other ws)
unfolding balance_of
balance_of-adjust uid other credit hold ws present =
    ground (arith, find_wallet-adjust uid other credit hold ws)

pub total_balance-adjust :
    (uid : ℕ) (credit hold : ℤ) (ws : List Wallet)
    → find_wallet uid ws ≢ none
    → total_balance (adjust uid credit hold ws) ≡ total_balance ws +ℤ credit
unfolding total_balance find_wallet adjust
total_balance-adjust uid credit hold [] present = absurd (present refl)
total_balance-adjust uid credit hold (x ∷ ws) present =
    grind (int_laws, total_balance-adjust uid credit hold ws)

-- A change of a bid's status touches no wallet.
pub wallets-set_bid_status :
    (i : ℕ) (s : BidStatus) (db : Db) → (set_bid_status i s db).wallets ≡ db.wallets
unfolding set_bid_status
wallets-set_bid_status i s db = refl
