-- ===== src/Bidding/Wallets.antt =====
-- What an accepted bid does to the wallets: holds move, balances do not, and nobody's hold outgrows
-- the balance.
use auctionhaus.Prelude.{
  ℕ, ◌≡◌, ◌≢◌, refl, ◌∙◌, Bool, false, none, some, Option, List, ℤ, pos, ◌+ℤ◌, ◌-ℤ◌, ◌≤ℤ◌, neg,
  ◌==◌, if◌then◌else◌, arith, int_laws, parts_of_eq, Bool-cases, inl, inr, ==→eq, neg_part,
}
use auctionhaus.Schema.{Wallet, Auction, Bid, is_dutch}
use auctionhaus.Store.{Db, find_wallet, update_auction}
use auctionhaus.Store.Wallets.{
  total_balance, total_balance-adjust, balance_of, held_of, balance_of-adjust, held_of-adjust,
}
use auctionhaus.Tx.{World, ok}
use auctionhaus.Bidding.{hold_bid, after_bid, accept_bid}
use auctionhaus.Bidding.Effect.{
  previous, released, give_back, Passed, accept_bid-Passed, accept_bid-db, accept_bid-previous,
  wallets-release_bid, wallets-hold_bid, has_wallet-give_back,
}

-- The part of a bid that counts for a user.
abbrev pub share : ℕ → Option Bid → ℤ
share uid none = pos 0
share uid (some b) = if b.bidder_id == uid then pos b.amount else pos 0

-- All three figures of a user, before and after the holds moved from one bid to another.
pub record Moved (uid : ℕ) (from to : Option Bid) (old new : List Wallet) : Type 0 where
  pub same_balance : balance_of uid new ≡ balance_of uid old
  pub moved_hold : held_of uid new +ℤ share uid from ≡ held_of uid old +ℤ share uid to
  pub same_total : total_balance new ≡ total_balance old

give_back-Moved :
    (uid : ℕ) (o : Option Bid) (db : Db)
    → ((p : Bid) → o ≡ some p → find_wallet p.bidder_id db.wallets ≢ none)
    → Moved uid o none db.wallets (give_back o db).wallets
give_back-Moved uid none db h = record { same_balance = refl; moved_hold = refl; same_total = refl }
give_back-Moved uid (some p) db h =
    let present = h p refl in
    let debit : ℤ = neg (pos p.amount) in
    rw (wallets-release_bid p db) (record {
      same_balance =
          grind (int_laws, balance_of-adjust p.bidder_id uid (pos 0) debit db.wallets present);
      moved_hold =
          grind (int_laws, held_of-adjust p.bidder_id uid (pos 0) debit db.wallets present);
      same_total =
          grind (int_laws, total_balance-adjust p.bidder_id (pos 0) debit db.wallets present);
    })

hold_bid-Moved :
    (uid : ℕ) (b : Bid) (db : Db)
    → find_wallet b.bidder_id db.wallets ≢ none
    → Moved uid none (some b) db.wallets (hold_bid b db).wallets
hold_bid-Moved uid b db present = rw (wallets-hold_bid b db) (record {
  same_balance =
      grind (int_laws, balance_of-adjust b.bidder_id uid (pos 0) (pos b.amount) db.wallets present);
  moved_hold =
      grind (int_laws, held_of-adjust b.bidder_id uid (pos 0) (pos b.amount) db.wallets present);
  same_total =
      grind (int_laws, total_balance-adjust b.bidder_id (pos 0) (pos b.amount) db.wallets present);
})

Moved-trans :
    (uid : ℕ) (o : Option Bid) (b : Bid) (ws vs us : List Wallet)
    → Moved uid o none ws vs
    → Moved uid none (some b) vs us
    → Moved uid o (some b) ws us
Moved-trans uid o b ws vs us m n = record {
  same_balance = n.same_balance ∙ m.same_balance;
  moved_hold = omega (int_laws, parts_of_eq _ _ m.moved_hold, parts_of_eq _ _ n.moved_hold);
  same_total = n.same_total ∙ m.same_total;
}

pub wallets-update_auction :
    (id : ℕ) (f : Auction → Auction) (db : Db) → (update_auction id f db).wallets ≡ db.wallets
unfolding update_auction
wallets-update_auction id f db = refl

-- An accepted English or sealed bid changes no balance and not the sum of all; the hold on each
-- wallet falls by the bid that was winning, if that is its owner's, and rises by the new one.
pub accept_bid-Moved :
    (uid : ℕ) (a : Auction) (bidder_id amount now : ℕ) (auto : Bool) (w w' : World) {b : Bid}
    → is_dutch a.kind ≡ false
    → accept_bid a bidder_id amount auto now w ≡ (ok b, w')
    → Moved uid (previous a w.db) (some b) w.db.wallets w'.db.wallets
accept_bid-Moved uid a bidder_id amount now auto w w' {b} kind h =
    let (made, tables) = accept_bid-db a bidder_id amount now auto w w' kind h in
    let passed : Passed a bidder_id amount now w.db =
      accept_bid-Passed a bidder_id amount now auto w w' h in
    let back : Moved uid (previous a w.db) none w.db.wallets (released a w.db).wallets =
      give_back-Moved uid (previous a w.db) w.db
        (λ p e. accept_bid-previous a bidder_id amount now auto w w' p h e) in
    rw (tables, wallets-update_auction a.id (after_bid b now) (hold_bid b (released a w.db)))
      (Moved-trans uid (previous a w.db) b _ _ _ back (
        hold_bid-Moved uid b (released a w.db)
          (has_wallet-give_back b.bidder_id (previous a w.db) w.db (rw made passed.has_wallet))))

-- The hold is covered by the balance.
abbrev pub IsSolvent : ℕ → List Wallet → Type 0
IsSolvent uid ws = held_of uid ws ≤ℤ balance_of uid ws

share_nonneg : (uid : ℕ) (o : Option Bid) → neg_part (share uid o) ≡ 0
share_nonneg uid none = refl
share_nonneg uid (some b) = ground arith

Moved-IsSolvent :
    (uid : ℕ) (o : Option Bid) (b : Bid) (ws us : List Wallet)
    → Moved uid o (some b) ws us
    → IsSolvent uid ws
    → (b.bidder_id ≡ uid → pos b.amount ≤ℤ balance_of uid ws -ℤ held_of uid ws)
    → IsSolvent uid us
Moved-IsSolvent uid o b ws us m sound covered = elim (Bool-cases (b.bidder_id == uid)) [
  | inl own ↦
      let c = covered (==→eq _ _ own) in
      let e : held_of uid us +ℤ share uid o ≡ held_of uid ws +ℤ pos b.amount =
        rw own at m.moved_hold in
      omega (int_laws, share_nonneg uid o, parts_of_eq _ _ e, parts_of_eq _ _ m.same_balance)
  | inr other ↦
      let e : held_of uid us +ℤ share uid o ≡ held_of uid ws +ℤ pos 0 = rw other at m.moved_hold in
      omega (int_laws, share_nonneg uid o, parts_of_eq _ _ e, parts_of_eq _ _ m.same_balance)
]

-- An accepted English or sealed bid leaves every wallet solvent that was so.
pub accept_bid-IsSolvent :
    (uid : ℕ) (a : Auction) (bidder_id amount now : ℕ) (auto : Bool) (w w' : World) {b : Bid}
    → is_dutch a.kind ≡ false
    → IsSolvent uid w.db.wallets
    → accept_bid a bidder_id amount auto now w ≡ (ok b, w')
    → IsSolvent uid w'.db.wallets
accept_bid-IsSolvent uid a bidder_id amount now auto w w' {b} kind sound h =
    let (made, tables) = accept_bid-db a bidder_id amount now auto w w' kind h in
    let passed : Passed a bidder_id amount now w.db =
      accept_bid-Passed a bidder_id amount now auto w w' h in
    Moved-IsSolvent uid (previous a w.db) b w.db.wallets w'.db.wallets
      (accept_bid-Moved uid a bidder_id amount now auto w w' kind h) sound
      (λ own. rw (← own, made) passed.covered)
