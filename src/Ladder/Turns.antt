-- ===== src/Ladder/Turns.antt =====
-- The loop of the ladder: a rule for what each turn keeps, and the prices that it plays.
use auctionhaus.Prelude.{
  ℕ, zero, suc, ◌+◌, ◌≤◌, ◌≡◌, ◌≢◌, Bool, true, false, none, some, List, Bool-cases, Option-cases,
  inl, inr, ltb, ltb_ℤ, keep, ◌-ℤ◌, ◌≤ℤ◌, arith,
}
use auctionhaus.Schema.{AutoBid}
use auctionhaus.Store.{Db, find_wallet}
use auctionhaus.Store.Wallets.{balance_of, held_of}
use auctionhaus.Ladder.{Rung, affords, pick, required, update_auto_bid, without, play, turn, climb}

-- What a challenger has passed when a rung is played.
pub record MayPlay (ceiling next : ℕ) (r : Rung) (db : Db) (c : AutoBid) : Type 0 where
  pub below : next ≤ ceiling
  pub picked : pick (keep (affords next) r.pool) r.winner_user_id ≡ some c
  pub has_wallet : find_wallet c.bidder_id db.wallets ≢ none
  pub covered :
      required r next c ≤ℤ balance_of c.bidder_id db.wallets -ℤ held_of c.bidder_id db.wallets

module _ (auction_id increment ceiling now : ℕ) where
  -- The rung that a turn plays for a challenger.
  abbrev pub rung_of : AutoBid → Rung → Db → Rung × Db
  rung_of c r db =
      play auction_id c (r.cur + increment) now (keep (affords (r.cur + increment)) r.pool) r db

  -- The four ways in which a turn ends.
  pub data Turned (r : Rung) (db : Db) : Bool × Rung × Db → Type 0 where
    stopped : Turned r db (false, r, db)
    dropped : (pool : List AutoBid) → Turned r db (true, record r { pool = pool }, db)
    switched :
        (pool : List AutoBid) (i : ℕ)
        → Turned r db (
          true,
          record r { pool = pool },
          update_auto_bid i (λ ab. record ab { is_active = false }) db,
        )
    played :
        (c : AutoBid)
        → MayPlay ceiling (r.cur + increment) r db c
        → Turned r db (true, (rung_of c r db).0, (rung_of c r db).1)

  pub turn-Turned : (r : Rung) (db : Db) → Turned r db (turn auction_id increment ceiling now r db)
  unfolding turn balance_of held_of
  turn-Turned r db =
      let next = r.cur + increment in
      let pool = keep (affords next) r.pool in
      elim (Bool-cases (ltb ceiling next)) [
        | inl over ↦ rw over stopped
        | inr below ↦ rw below (elim (Option-cases (pick pool r.winner_user_id)) [
          | inl nobody ↦ rw nobody stopped
          | inr (c, picked) ↦ rw picked (elim (Option-cases (find_wallet c.bidder_id db.wallets)) [
            | inl missing ↦ rw missing (dropped (without c pool))
            | inr (wallet, has) ↦
                elim (Bool-cases
                  (ltb_ℤ (wallet.balance -ℤ wallet.held_amount) (required r next c))) [
                    | inl short ↦ rw (has, short) (switched (without c pool) c.id)
                    | inr covered ↦
                        rw (has, covered)
                          (played c (record {
                            below = ground arith;
                            picked = picked;
                            has_wallet = ground arith;
                            covered = ground arith;
                          }))
                  ]
          ])
        ])
      ]

  module _ {ℓ} (P : Rung → Db → Type ℓ) where
    -- What drops and switched-off proxies do not touch, and every rung keeps.
    pub record Keeps : Type ℓ where
      pub drop :
          (r : Rung) (db : Db) (pool : List AutoBid) → P r db → P (record r { pool = pool }) db
      pub switch :
          (r : Rung) (db : Db) (i : ℕ)
          → P r db
          → P r (update_auto_bid i (λ ab. record ab { is_active = false }) db)
      pub rung :
          (r : Rung) (db : Db) (c : AutoBid)
          → MayPlay ceiling (r.cur + increment) r db c
          → P r db
          → P (rung_of c r db).0 (rung_of c r db).1

    Turned-keeps :
        (r : Rung) (db : Db) (t : Bool × Rung × Db) → Keeps → P r db → Turned r db t → P t.1 t.2
    Turned-keeps r db t k h stopped = h
    Turned-keeps r db t k h (dropped pool) = k.drop r db pool h
    Turned-keeps r db t k h (switched pool i) = k.switch _ db i (k.drop r db pool h)
    Turned-keeps r db t k h (played c may) = k.rung r db c may h

    -- What a turn keeps, the loop keeps.
    pub climb-keeps :
        (left : ℕ) (r : Rung) (db : Db)
        → Keeps
        → P r db
        → let (r', db') = climb left auction_id increment ceiling now r db in P r' db'
    unfolding climb
    climb-keeps zero r db k h = h
    climb-keeps (suc left) r db k h =
        let t = turn auction_id increment ceiling now r db in
        let h' = Turned-keeps r db t k h (turn-Turned r db) in
        elim (Bool-cases t.0) [
          | inl more ↦ rw (more, climb) (climb-keeps left t.1 t.2 k h')
          | inr done ↦ rw (done, climb) h'
        ]
