-- ===== src/Bidding/Dutch.antt =====
-- A Dutch bid ends the auction and settles it in the same transaction.
use auctionhaus.Prelude.{
  ℕ, ◌+◌, ◌≢◌, ◌∙◌, ap, ◌∷◌, pos, find_first, ◌≡◌, refl, Bool, true, none, some, Option, arith,
  ==_refl, sym,
}
use mathlib.Core.Path.{subst}
use auctionhaus.Schema.{Auction, Bid, BidStatus, SettlementKind, is_dutch}
use auctionhaus.Store.{
  Db, find_wallet, adjust, find_settlement, set_bid_status, create_settlement, adjust_wallet,
  log_transaction, create_bid, update_auction,
}
use auctionhaus.Escrow.{
  Params, move_money, settlement_row, is_settled, settle_fresh, settle_within_tx,
}
use auctionhaus.Tx.{World, ok, wallet_or}
use auctionhaus.Bidding.{
  check_amount, validate, lock_wallets, check_wallet, release_bid, hold_bid, release_previous,
  new_bid, settle_dutch, accept_bid,
}
use auctionhaus.Bidding.Effect.{accepted, give_back, previous, Passed, accept_bid-Passed}
use auctionhaus.Bidding.Holds.{excess-accepted}
use auctionhaus.Escrow.Holds.{NoOtherWon, excess-settled}
use auctionhaus.Store.Bids.{IdsBelow}
use auctionhaus.Store.Holds.{excess}
use auctionhaus.Store.Wallets.{find_wallet-adjust_some}

abbrev pub dutch_params : Auction → Bid → Params
dutch_params a b = record {
  auction_id = a.id;
  payer_id = b.bidder_id;
  seller_id = a.seller_id;
  amount = b.amount;
  kind = SettlementKind.won_auction;
}

-- The tables after a Dutch bid on an auction that was not settled.
abbrev pub sold : Auction → Bid → ℕ → Db → Db
sold a b now db = set_bid_status b.id BidStatus.won (
    move_money (dutch_params a b)
      (create_settlement (settlement_row (dutch_params a b)) (accepted a b now db)))

settlements-give_back : (o : Option Bid) (db : Db) → (give_back o db).settlements ≡ db.settlements
unfolding release_bid set_bid_status adjust_wallet log_transaction
settlements-give_back none db = refl
settlements-give_back (some b) db = refl

pub settlements-accepted :
    (a : Auction) (b : Bid) (now : ℕ) (db : Db) → (accepted a b now db).settlements ≡ db.settlements
unfolding update_auction hold_bid create_bid adjust_wallet log_transaction
settlements-accepted a b now db = settlements-give_back (previous a db) db

pub accept_bid-sold :
    (a : Auction) (bidder_id amount now : ℕ) (auto : Bool) (w w' : World) {b : Bid}
    → is_dutch a.kind ≡ true
    → find_settlement a.id w.db.settlements ≡ none
    → accept_bid a bidder_id amount auto now w ≡ (ok b, w')
    → (b ≡ new_bid a.id bidder_id amount auto now w.db) × (w'.db ≡ sold a b now w.db)
unfolding accept_bid validate check_amount lock_wallets check_wallet release_previous wallet_or
    settle_dutch settle_within_tx settle_fresh is_settled
accept_bid-sold a bidder_id amount now auto w w' kind open_ h =
    ground (arith, settlements-accepted a (new_bid a.id bidder_id amount auto now w.db) now w.db)

-- The seller has a wallet when the bid is settled.
pub accept_bid-seller :
    (a : Auction) (bidder_id amount now : ℕ) (auto : Bool) (w w' : World) {b : Bid}
    → is_dutch a.kind ≡ true
    → find_settlement a.id w.db.settlements ≡ none
    → accept_bid a bidder_id amount auto now w ≡ (ok b, w')
    → find_wallet a.seller_id (accepted a b now w.db).wallets ≢ none
unfolding accept_bid validate check_amount lock_wallets check_wallet release_previous wallet_or
    settle_dutch settle_within_tx settle_fresh is_settled
accept_bid-seller a bidder_id amount now auto w w' kind open_ h =
    ground (arith, settlements-accepted a (new_bid a.id bidder_id amount auto now w.db) now w.db)

-- A Dutch auction releases no earlier bid, so the tables of bids grow by the new one.
bids-accepted :
    (a : Auction) (b : Bid) (now : ℕ) (db : Db)
    → is_dutch a.kind ≡ true
    → ((accepted a b now db).bids ≡ b ∷ db.bids) × ((accepted a b now db).next_id ≡ db.next_id + 1)
unfolding update_auction hold_bid create_bid adjust_wallet log_transaction
bids-accepted a b now db kind = ground arith

wallets-accepted :
    (a : Auction) (b : Bid) (now : ℕ) (db : Db)
    → is_dutch a.kind ≡ true
    → (accepted a b now db).wallets ≡ adjust b.bidder_id (pos 0) (pos b.amount) db.wallets
unfolding update_auction hold_bid create_bid adjust_wallet log_transaction
wallets-accepted a b now db kind = ground arith

-- An accepted Dutch bid keeps the hold on every wallet in step with its owner's bids too.
pub accept_bid-sold_excess :
    (uid : ℕ) (a : Auction) (bidder_id amount now : ℕ) (auto : Bool) (w w' : World) {b : Bid}
    → is_dutch a.kind ≡ true
    → find_settlement a.id w.db.settlements ≡ none
    → NoOtherWon a.id w.db.next_id w.db.bids
    → IdsBelow w.db.next_id w.db.bids
    → accept_bid a bidder_id amount auto now w ≡ (ok b, w')
    → excess uid w'.db ≡ excess uid w.db
unfolding find_first
accept_bid-sold_excess uid a bidder_id amount now auto w w' {b} kind open_ others ids h =
    let (made, tables) = accept_bid-sold a bidder_id amount now auto w w' kind open_ h in
    let passed : Passed a bidder_id amount now w.db =
      accept_bid-Passed a bidder_id amount now auto w w' h in
    let mid : Db = accepted a b now w.db in
    let (rows, next) = bids-accepted a b now w.db kind in
    let others' : NoOtherWon a.id b.id w.db.bids =
      subst (λ i. NoOtherWon a.id i w.db.bids) (sym (ap (λ (x : Bid). x.id) made)) others in
    let payer : find_wallet b.bidder_id mid.wallets ≢ none =
      rw (wallets-accepted a b now w.db kind) (
        find_wallet-adjust_some b.bidder_id b.bidder_id _ _ w.db.wallets
          (rw made passed.has_wallet)) in
    ap (excess uid) tables
    ∙ excess-settled uid (dutch_params a b) b mid refl payer
        (accept_bid-seller a bidder_id amount now auto w w' kind open_ h)
        (rw (rows, next, made) (omega arith, ids)) (rw rows ((λ _ ne. absurd (ne refl)), others'))
        (rw (rows, ==_refl b.id)) (rw made) (rw made (refl, refl, refl))
    ∙ excess-accepted uid a b now w.db ids (λ p e. ground arith) (rw made)
        (rw made passed.has_wallet)
