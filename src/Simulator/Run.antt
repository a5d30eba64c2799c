-- ===== src/Simulator/Run.antt =====
-- The main loop of packages/simulator/src/run.ts, with the server behind it. Nobody else bids on the
-- auctions, and the queued jobs do not run in between.
pub mod Logged
mod Tests
use auctionhaus.Prelude.{
  ℕ, zero, suc, ◌+◌, Bool, true, false, Option, none, some, List, [], ◌∷◌, length, keep,
}
use auctionhaus.Schema.{Bid, is_ended}
use auctionhaus.Tx.{World, Result, ok, err}
use auctionhaus.Accounts.{Site}
use auctionhaus.Detail.{AuctionDetail, get_auction_by_id}
use auctionhaus.BidController.{place_bid_request}
use auctionhaus.Simulator.Agents.{AuctionState, Draws, Agent, decide}

pub record Participant : Type 0 where
  pub user_id : ℕ
  pub is_shill : Bool
  pub agent : Agent

pub record SimAuction : Type 0 where
  pub id : ℕ
  pub seller_id : ℕ
  pub participants : List Participant

-- `BidLogEntry`; the agent's type is left out.
pub record BidLogEntry : Type 0 where
  pub ts : ℕ
  pub auction_id : ℕ
  pub bidder_id : ℕ
  pub amount : ℕ
  pub is_shill : Bool

-- What a turn depends on from outside: the time and the draws.
pub record Chance : Type 0 where
  pub now : ℕ
  pub draws : Draws

-- The server and the log, its last entry first.
pub record Simulation : Type 0 where
  pub site : Site
  pub log : List BidLogEntry

abbrev pub first_bidder : List Bid → Option ℕ
first_bidder [] = none
first_bidder (b ∷ bs) = some b.bidder_id

-- `getAuctionState`
unfoldable pub get_auction_state : ℕ → ℕ → Site → Option AuctionState
get_auction_state auction_id viewer s = elim (get_auction_by_id auction_id (some viewer) s) [
  | err e ↦ none
  | ok found ↦ some (record {
    current_price = found.auction.current_price;
    min_increment = found.auction.min_increment;
    end_time = found.auction.end_time;
    status = found.auction.status;
    top_bidder_id = first_bidder found.bids;
  })
]

-- `placeBid`: whether the server took the bid.
unfoldable pub place_bid_call : ℕ → ℕ → ℕ → ℕ → Site → Bool × Site
place_bid_call auction_id user_id amount now s =
    let (r, w) = place_bid_request auction_id user_id amount now s.world in
    (elim r [ ok _ ↦ true | err _ ↦ false ], record s { world = w })

-- The turn of one participant, who has seen `state`.
unfoldable pub take_turn :
    ℕ → AuctionState → Chance → Participant → Simulation → Participant × Simulation
take_turn auction_id state c p s =
    let (agent, bid) = decide p.agent state p.user_id c.now c.draws in
    (
      record p { agent = agent },
      elim bid [
        | none ↦ s
        | some amount ↦
            let (taken, site) = place_bid_call auction_id p.user_id amount c.now s.site in
            elim taken [
              | false ↦ record s { site = site }
              | true ↦ record {
                site = site;
                log =
                    record {
                      ts = c.now;
                      auction_id = auction_id;
                      bidder_id = p.user_id;
                      amount = amount;
                      is_shill = p.is_shill;
                    }
                    ∷ s.log;
              }
            ]
      ],
    )

-- All participants of an auction in turn, on the one state that was read before. The chances are
-- numbered from `i` on.
unfoldable pub take_turns :
    ℕ
    → AuctionState
    → (ℕ → Chance)
    → ℕ
    → List Participant
    → Simulation
    → List Participant × Simulation
take_turns auction_id state chance i [] s = ([], s)
take_turns auction_id state chance i (p ∷ ps) s =
    let (p', s') = take_turn auction_id state (chance i) p s in
    let (ps', s'') = take_turns auction_id state chance (i + 1) ps s' in (p' ∷ ps', s'')

-- One auction of a round: skipped where it cannot be read or has ended.
unfoldable pub visit : ℕ → (ℕ → Chance) → SimAuction → Simulation → SimAuction × Simulation
visit viewer chance a s = elim (get_auction_state a.id viewer s.site) [
  | none ↦ (a, s)
  | some state ↦ elim (is_ended state.status) [
    | true ↦ (a, s)
    | false ↦
        let (ps, s') = take_turns a.id state chance 0 a.participants s in
        (record a { participants = ps }, s')
  ]
]

unfoldable pub play_round :
    ℕ → (ℕ → ℕ → Chance) → ℕ → List SimAuction → Simulation → List SimAuction × Simulation
play_round viewer chance i [] s = ([], s)
play_round viewer chance i (a ∷ as_) s =
    let (a', s') = visit viewer (chance i) a s in
    let (rest, s'') = play_round viewer chance (i + 1) as_ s' in (a' ∷ rest, s'')

-- `while (Date.now() < endMs)`, for the number of rounds that it makes.
unfoldable pub run_rounds :
    ℕ → (ℕ → ℕ → ℕ → Chance) → ℕ → List SimAuction → Simulation → List SimAuction × Simulation
run_rounds viewer chance zero as_ s = (as_, s)
run_rounds viewer chance (suc n) as_ s =
    let (as', s') = play_round viewer (chance n) 0 as_ s in run_rounds viewer chance n as' s'

-- Of the manifest: `totalBids` and `shillBids`.
unfoldable pub total_bids_of : Simulation → ℕ
total_bids_of s = length s.log

unfoldable pub shill_bids_of : Simulation → ℕ
shill_bids_of s = length (keep (λ e. e.is_shill) s.log)
