-- ===== src/Escrow/Holds.antt =====
-- A settlement of a won auction releases the hold of the winning bid and of no other.
use auctionhaus.Prelude.{
  ℕ, ◌≤◌, ◌≡◌, ◌≢◌, refl, true, false, none, some, List, [], ◌∷◌, ℤ, pos, ◌+ℤ◌, neg, ◌==◌,
  if◌then◌else◌, find_first, sum_of, arith, int_laws, parts_of_eq, All, Bool-cases, inl, inr,
}
use auctionhaus.Schema.{Bid, BidStatus, Settlement, is_won, is_direct}
use auctionhaus.Store.{
  Db, find_wallet, find_settlement, adjust_wallet, set_status, set_bid_status, log_transaction,
  create_settlement,
}
use auctionhaus.Store.Wallets.{held_of-adjust, find_wallet-adjust_some}
use auctionhaus.Store.Bids.{IdsBelow}
use auctionhaus.Store.Holds.{encumbers, hold_weight, excess}
use auctionhaus.Escrow.{Params, move_money, settlement_row}

-- No bid of the auction is WON, but for the one with this id.
abbrev pub NoOtherWon : ℕ → ℕ → List Bid → Type 0
NoOtherWon auction_id i = All (λ x. x.auction_id ≡ auction_id → x.id ≢ i → is_won x.status ≡ false)

-- Below the id in question every sum is as it was.
sum_of-settled_below :
    (s : Settlement) (ss : List Settlement) (uid i n : ℕ) (bs : List Bid)
    → IdsBelow n bs
    → n ≤ i
    → NoOtherWon s.auction_id i bs
    → sum_of (hold_weight (s ∷ ss) uid) bs ≡ sum_of (hold_weight ss uid) bs
unfolding sum_of find_settlement
sum_of-settled_below s ss uid i n [] ids le h = refl
sum_of-settled_below s ss uid i n (x ∷ bs) ids le h =
    let rest = sum_of-settled_below s ss uid i x.id bs ids.1 (omega arith) h.1 in
    ground (arith, h.0)

hold_weight-settled :
    (s : Settlement) (ss : List Settlement) (uid : ℕ) (x : Bid)
    → (x.auction_id ≡ s.auction_id → is_won x.status ≡ false)
    → hold_weight (s ∷ ss) uid x ≡ hold_weight ss uid x
unfolding find_settlement find_first
hold_weight-settled s ss uid x h = ground arith

hold_weight-won :
    (s : Settlement) (ss : List Settlement) (uid : ℕ) (x : Bid)
    → x.auction_id ≡ s.auction_id
    → hold_weight (s ∷ ss) uid (record x { status = BidStatus.won }) ≡ pos 0
unfolding find_settlement find_first
hold_weight-won s ss uid x h = ground arith

-- The winning bid becomes WON, and the auction settled.
sum_of-settled :
    (s : Settlement) (ss : List Settlement) (uid n : ℕ) (bs : List Bid) (b : Bid)
    → find_first (λ x. x.id == b.id) bs ≡ some b
    → IdsBelow n bs
    → NoOtherWon s.auction_id b.id bs
    → b.auction_id ≡ s.auction_id
    → sum_of (hold_weight (s ∷ ss) uid) (set_status b.id BidStatus.won bs) +ℤ hold_weight ss uid b
      ≡ sum_of (hold_weight ss uid) bs
unfolding sum_of set_status find_first
sum_of-settled s ss uid n [] b found ids h same = cc
sum_of-settled s ss uid n (x ∷ bs) b found ids h same = elim (Bool-cases (x.id == b.id)) [
  | inl hit ↦
      let e : x ≡ b = ground arith in
      let none_left = sum_of-settled_below s ss uid b.id x.id bs ids.1 (ground arith) h.1 in
      let zeroed = hold_weight-won s ss uid x (ground arith) in
      rw (hit, none_left, zeroed, ← e) (omega int_laws)
  | inr miss ↦
      let rest = sum_of-settled s ss uid x.id bs b (ground arith) ids.1 h.1 same in
      let kept = hold_weight-settled s ss uid x (λ e. h.0 e (ground arith)) in
      rw (miss, kept) (omega (int_laws, parts_of_eq _ _ rest))
]

-- Settling a won auction takes the payer's debit out of the hold, and the winning bid out of what
-- the hold is for.
pub excess-settled :
    (uid : ℕ) (p : Params) (b : Bid) (db : Db)
    → is_direct p.kind ≡ false
    → find_wallet p.payer_id db.wallets ≢ none
    → find_wallet p.seller_id db.wallets ≢ none
    → IdsBelow db.next_id db.bids
    → NoOtherWon p.auction_id b.id db.bids
    → find_first (λ x. x.id == b.id) db.bids ≡ some b
    → encumbers db.settlements b ≡ true
    → (b.auction_id ≡ p.auction_id) × (b.bidder_id ≡ p.payer_id) × (b.amount ≡ p.amount)
    → excess uid
        (set_bid_status b.id BidStatus.won (move_money p (create_settlement (settlement_row p) db)))
      ≡ excess uid db
unfolding excess set_bid_status move_money create_settlement log_transaction adjust_wallet
excess-settled uid p b db won payer seller ids others found encumbered_ same =
    let debit : ℤ = neg (pos p.amount) in
    let hold : ℤ = if is_direct p.kind then pos 0 else debit in
    grind (
      int_laws,
      sum_of-settled (settlement_row p) db.settlements uid db.next_id db.bids b found ids others
          same.0,
      held_of-adjust p.payer_id uid debit hold db.wallets payer,
      held_of-adjust p.seller_id uid (pos p.amount) (pos 0) _
          (find_wallet-adjust_some p.payer_id p.seller_id debit hold db.wallets seller),
    )
