-- ===== src/Simulator/Agents/Limits.antt =====
-- What an agent bids lies between the least bid that the server takes and its own limit.
use auctionhaus.Prelude.{ℕ, ◌+◌, ◌*◌, ◌≤◌, ◌≡◌, ◌≢◌, refl, true, false, none, some, Option, arith}
use auctionhaus.Schema.{Auction, is_english}
use auctionhaus.Tx.{World, ok}
use auctionhaus.Bidding.{check_amount}
use auctionhaus.Simulator.Agents.{
  AuctionState, Draws, Agent, truthful, sniper, shill, collusion, decide, limit_of, is_patient,
  differs,
}

at_least : (m k : ℕ) → m ≤ m * (1 + k)
at_least m k = grind arith

check_amount-english :
    (a : Auction) (amount : ℕ) (w : World)
    → is_english a.kind ≡ true
    → a.current_price + a.min_increment ≤ amount
    → (check_amount a amount w).0 ≡ ok tt
unfolding check_amount
check_amount-english a amount w e enough = ground arith

-- A bid of an agent, beside the state that it saw.
abbrev IsFair : Agent → AuctionState → ℕ → ℕ → Agent → Type 0
IsFair g s user_id amount g' =
    (amount ≤ limit_of g)
    × (limit_of g' ≡ limit_of g)
    × (is_patient g ≡ false
        → (s.top_bidder_id ≢ some user_id) × (s.current_price + s.min_increment ≤ amount))

decide-IsFair :
    (g : Agent) (s : AuctionState) (user_id now amount : ℕ) (d : Draws)
    → (decide g s user_id now d).1 ≡ some amount
    → IsFair g s user_id amount (decide g s user_id now d).0
unfolding decide
decide-IsFair (truthful g) s user_id now amount d h = (
  ground arith,
  ground arith,
  λ _. (ground arith, ground (arith, at_least s.min_increment d.steps)),
)
decide-IsFair (sniper g) s user_id now amount d h = (ground arith, ground arith, λ p. cc)
decide-IsFair (shill g) s user_id now amount d h =
    (ground arith, ground arith, λ _. (ground arith, ground arith))
decide-IsFair (collusion g) s user_id now amount d h = (
  ground arith,
  ground arith,
  λ _. (ground arith, ground (arith, at_least s.min_increment d.steps)),
)

-- An agent never bids above its valuation or ceiling, which a decision does not change. All but the
-- sniper bid at least one increment above the price that they saw, only when they do not lead the
-- auction, and the server's check of the amount passes on an English auction with that price and
-- increment.
decide-limits :
    (g : Agent) (s : AuctionState) (user_id now amount : ℕ) (d : Draws) (a : Auction) (w : World)
    → (decide g s user_id now d).1 ≡ some amount
    → is_english a.kind ≡ true
    → a.current_price ≡ s.current_price
    → a.min_increment ≡ s.min_increment
    → (amount ≤ limit_of g)
      × (limit_of (decide g s user_id now d).0 ≡ limit_of g)
      × (is_patient g ≡ false
          → (s.top_bidder_id ≢ some user_id) × ((check_amount a amount w).0 ≡ ok tt))
decide-limits g s user_id now amount d a w h e p i =
    let (below, same, fair) = decide-IsFair g s user_id now amount d h in
    (
      below,
      same,
      λ eager.
          (let (apart, enough) = fair eager in
            (apart, check_amount-english a amount w e (omega (arith, p, i, enough)))),
    )

-- The question whether the partner leads, as it is put, is always answered yes.
differs_self : (top : Option ℕ) → differs top top ≡ false
differs_self none = refl
differs_self (some t) = ground arith
