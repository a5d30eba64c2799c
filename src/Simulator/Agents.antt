-- ===== src/Simulator/Agents.antt =====
-- packages/simulator/src/agents.ts: what each persona bids. Amounts are whole cents, times milliseconds.
pub mod Limits
use auctionhaus.Prelude.{
  ℕ, ◌+◌, ◌-◌, ◌*◌, Bool, true, false, not, ◌&&◌, ◌||◌, Option, none, some, ltb, leb, ◌==◌, max,
  min, if◌then◌else◌,
}
use auctionhaus.Schema.{AuctionStatus}

-- `AuctionState`
pub record AuctionState : Type 0 where
  pub current_price : ℕ
  pub min_increment : ℕ
  pub end_time : ℕ
  pub status : AuctionStatus
  pub top_bidder_id : Option ℕ

-- The draws of one decision: the pause that is asked for, the steps above the first, the next pause.
pub record Draws : Type 0 where
  pub delay : ℕ
  pub steps : ℕ
  pub next_interval : ℕ

pub record Truthful : Type 0 where
  pub valuation : ℕ
  pub last_bid_ts : ℕ
  pub interval_ms : ℕ

pub record Sniper : Type 0 where
  pub valuation : ℕ
  pub has_bid : Bool

pub record Shill : Type 0 where
  pub ceiling : ℕ
  pub last_bid_ts : ℕ

pub record Collusion : Type 0 where
  pub ceiling : ℕ
  pub last_bid_ts : ℕ
  pub bids_placed : ℕ

-- `state.topBidderId === myUserId`
abbrev pub tops : AuctionState → ℕ → Bool
tops s user_id = elim s.top_bidder_id [ none ↦ false | some t ↦ t == user_id ]

-- A decision is the amount that is bid, if one is. It comes with the agent afterwards.
unfoldable pub decide_truthful : Truthful → AuctionState → ℕ → ℕ → Draws → Truthful × Option ℕ
decide_truthful g s user_id now d =
    let amount = s.current_price + s.min_increment * (1 + d.steps) in
    if leb g.valuation s.current_price
    then (g, none)
    else if ltb now (g.last_bid_ts + g.interval_ms)
    then (g, none)
    else if tops s user_id
    then (g, none)
    else if ltb g.valuation amount
    then (g, none)
    else (record g { last_bid_ts = now; interval_ms = d.next_interval }, some amount)

-- `state.endTime - (state.endTime - 60000)`
abbrev pub sniper_window : ℕ
sniper_window = 60000

-- `remaining / total > 0.15`, with both sides times the window and a hundred.
unfoldable pub decide_sniper : Sniper → AuctionState → ℕ → Sniper × Option ℕ
decide_sniper g s now =
    if g.has_bid
    then (g, none)
    else if ltb (15 * sniper_window) ((s.end_time - now) * 100)
    then (g, none)
    else (
      record g { has_bid = true },
      some (min g.valuation (s.current_price + s.min_increment * 5)),
    )

unfoldable pub decide_shill : Shill → AuctionState → ℕ → ℕ → Draws → Shill × Option ℕ
decide_shill g s user_id now d =
    let amount = s.current_price + s.min_increment in
    if leb g.ceiling s.current_price
    then (g, none)
    else if tops s user_id
    then (g, none)
    else if ltb now (g.last_bid_ts + d.delay)
    then (g, none)
    else if ltb g.ceiling amount
    then (g, none)
    else (record g { last_bid_ts = now }, some amount)

-- `topBidderId && topBidderId !== state.topBidderId`
abbrev pub differs : Option ℕ → Option ℕ → Bool
differs none other = false
differs (some t) none = true
differs (some t) (some u) = not (t == u)

unfoldable pub decide_collusion :
    Collusion → AuctionState → ℕ → Option ℕ → ℕ → Draws → Collusion × Option ℕ
decide_collusion g s user_id top now d =
    let amount = s.current_price + s.min_increment * (1 + d.steps) in
    if leb g.ceiling s.current_price
    then (g, none)
    else if tops s user_id
    then (g, none)
    else if differs top s.top_bidder_id
    then (g, none)
    else if ltb now (g.last_bid_ts + d.delay)
    then (g, none)
    else if ltb g.ceiling amount
    then (g, none)
    else (record g { bids_placed = g.bids_placed + 1; last_bid_ts = now }, some amount)

pub data Agent : Type 0 where
  truthful : Truthful → Agent
  sniper : Sniper → Agent
  shill : Shill → Agent
  collusion : Collusion → Agent

-- The call in packages/simulator/src/run.ts, which hands a colluding agent the state's own top bidder.
unfoldable pub decide : Agent → AuctionState → ℕ → ℕ → Draws → Agent × Option ℕ
unfolding decide_truthful decide_sniper decide_shill decide_collusion
decide (truthful g) s user_id now d =
    let (g', amount) = decide_truthful g s user_id now d in (truthful g', amount)
decide (sniper g) s user_id now d = let (g', amount) = decide_sniper g s now in (sniper g', amount)
decide (shill g) s user_id now d =
    let (g', amount) = decide_shill g s user_id now d in (shill g', amount)
decide (collusion g) s user_id now d =
    let (g', amount) = decide_collusion g s user_id s.top_bidder_id now d in (collusion g', amount)

-- The most that an agent pays.
abbrev pub limit_of : Agent → ℕ
limit_of (truthful g) = g.valuation
limit_of (sniper g) = g.valuation
limit_of (shill g) = g.ceiling
limit_of (collusion g) = g.ceiling

abbrev pub is_patient : Agent → Bool
is_patient (truthful g) = false
is_patient (sniper g) = true
is_patient (shill g) = false
is_patient (collusion g) = false
