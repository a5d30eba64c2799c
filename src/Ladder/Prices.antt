-- ===== src/Ladder/Prices.antt =====
-- The prices of a ladder: every rung is one increment above the last, none is above the ceiling, and
-- nobody bids more than the maximum that they set.
use auctionhaus.Prelude.{ℕ, ◌+◌, ◌≤◌, ◌≡◌, refl, List, [], ◌∷◌, All, max, arith}
use auctionhaus.Schema.{Auction, AutoBid, Bid}
use auctionhaus.Store.{Db}
use auctionhaus.Ladder.{
  LadderStep, Rung, play, start_rung, ceiling_for, run_ladder, climb, max_steps,
}
use auctionhaus.Ladder.Turns.{Keeps, climb-keeps}

-- From the price `base` up to `cur`, one increment for each step, the last step first.
abbrev pub IsLadder : ℕ → ℕ → ℕ → List LadderStep → Type 0
IsLadder increment base cur [] = cur ≡ base
IsLadder increment base cur (s ∷ ss) =
    (s.amount ≡ cur) × ((below : ℕ) × (cur ≡ below + increment) × IsLadder increment base below ss)

module _ (increment base ceiling auction_id now : ℕ) where
  record Priced (r : Rung) (db : Db) : Type 0 where
    laddered : IsLadder increment base r.cur r.steps
    bounded : r.cur ≤ max base ceiling
    rungs : All (λ s. s.amount ≤ ceiling) r.steps

  Priced-Keeps : Keeps auction_id increment ceiling now Priced
  unfolding play
  Priced-Keeps = record {
    drop = λ r db pool h. record { laddered = h.laddered; bounded = h.bounded; rungs = h.rungs };
    switch = λ r db i h. record { laddered = h.laddered; bounded = h.bounded; rungs = h.rungs };
    rung = λ r db c may h. record {
      laddered = (refl, (r.cur, refl, h.laddered));
      bounded = omega (arith, may.below);
      rungs = (may.below, h.rungs);
    };
  }

  climb-Priced :
      (left : ℕ) (r : Rung) (db : Db)
      → Priced r db
      → let (r', db') = climb left auction_id increment ceiling now r db in Priced r' db'
  climb-Priced left r db h =
      climb-keeps auction_id increment ceiling now Priced left r db Priced-Keeps h

-- The steps of a ladder start one increment above the current price, rise by one increment each,
-- end at the final price, and never pass the ceiling.
pub run_ladder-prices :
    (a : Auction) (pool : List AutoBid) (trigger : Bid) (now : ℕ) (db : Db)
    → let (r, db') = run_ladder a pool trigger now db in
      IsLadder a.min_increment a.current_price r.cur r.steps
      × All (λ s. s.amount ≤ ceiling_for a pool) r.steps
unfolding run_ladder
run_ladder-prices a pool trigger now db =
    let inc = a.min_increment in
    let base = a.current_price in
    let ceiling = ceiling_for a pool in
    let p =
      climb-Priced inc base ceiling a.id now (max_steps inc base ceiling)
        (start_rung a trigger pool) db
        (record { laddered = refl; bounded = omega arith; rungs = tt }) in
    (p.laddered, p.rungs)
