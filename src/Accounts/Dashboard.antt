-- ===== src/Accounts/Dashboard.antt =====
-- `getDashboardStats` and the two lists of back/src/modules/admin/admin.service.ts, and the pages of
-- a wallet's ledger, `getWallet` and `getTransactions` of back/src/modules/wallet/wallet.service.ts.
use auctionhaus.Prelude.{
  ℕ, ◌-◌, ◌*◌, Bool, true, Option, none, some, List, ℤ, pos, sum_of, keep, length, first_n, skip_n,
  ◌==◌, if◌then◌else◌,
}
use auctionhaus.Schema.{Transaction, Auction, AuctionStatus, Wallet, is_active, is_payment}
use auctionhaus.Tx.{Tx, pure, gets, wallet_or, wallet_not_found, ◌>>=◌, ◌>>◌}
use auctionhaus.Detail.{same_status}
use auctionhaus.Accounts.{Site, User}

abbrev pub paid_amount : Transaction → ℤ
paid_amount t = if is_payment t.kind then t.amount else pos 0

-- `_sum: { amount }` over the rows of type PAYMENT, and 0 where there are none. The column `status`
-- is only ever written as COMPLETED.
unfoldable pub total_revenue : List Transaction → ℤ
total_revenue rows = sum_of paid_amount rows

pub record Dashboard : Type 0 where
  pub total_users : ℕ
  pub total_auctions : ℕ
  pub active_auctions : ℕ
  pub total_bids : ℕ
  pub revenue : ℤ
  pub recent_users : List User
  pub recent_auctions : List Auction

-- Rows stand newest first, so that `take: 5` by `createdAt` is the first five.
unfoldable pub get_dashboard_stats : Site → Dashboard
get_dashboard_stats s = record {
  total_users = length s.people.users;
  total_auctions = length s.world.db.auctions;
  active_auctions = length (keep (λ a. is_active a.status) s.world.db.auctions);
  total_bids = length s.world.db.bids;
  revenue = total_revenue s.world.db.transactions;
  recent_users = first_n 5 s.people.users;
  recent_auctions = first_n 5 s.world.db.auctions;
}

-- A page of the rows that pass, and how many pass: `skip: (page - 1) * limit`, `take: limit`.
pub record Listing {ℓ} (A : Type ℓ) : Type ℓ where
  pub items : List A
  pub total : ℕ
  pub page : ℕ
  pub limit : ℕ

unfoldable pub page_of {ℓ} : {A : Type ℓ} → (A → Bool) → ℕ → ℕ → List A → Listing A
page_of test page limit rows = record {
  items = first_n limit (skip_n ((page - 1) * limit) (keep test rows));
  total = length (keep test rows);
  page = page;
  limit = limit;
}

-- `getAllUsers`. Whether a name or an e-mail address contains the text is the database's answer.
unfoldable pub get_all_users : Option (User → Bool) → ℕ → ℕ → Site → Listing User
unfolding page_of
get_all_users search page limit s =
    page_of (λ u. elim search [ none ↦ true | some contains ↦ contains u ]) page limit
      s.people.users

-- `getAllAuctions`
unfoldable pub get_all_auctions : Option AuctionStatus → ℕ → ℕ → Site → Listing Auction
unfolding page_of
get_all_auctions status page limit s =
    page_of (λ a. elim status [ none ↦ true | some t ↦ same_status a.status t ]) page limit
      s.world.db.auctions

abbrev pub rows_of : ℕ → Transaction → Bool
rows_of uid t = t.user_id == uid

-- `getWallet`: the wallet, with its last fifty rows of the ledger.
unfoldable pub get_wallet : ℕ → Tx (Wallet × List Transaction)
unfolding wallet_or
get_wallet uid = do
  wallet ← wallet_or wallet_not_found uid
  rows ← gets (λ db. first_n 50 (keep (rows_of uid) db.transactions))
  pure (wallet, rows)

-- `getTransactions`
unfoldable pub get_transactions : ℕ → ℕ → ℕ → Tx (Listing Transaction)
unfolding wallet_or page_of
get_transactions uid page limit = do
  wallet_or wallet_not_found uid
  gets (λ db. page_of (rows_of uid) page limit db.transactions)
