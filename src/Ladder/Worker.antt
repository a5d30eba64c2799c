-- ===== src/Ladder/Worker.antt =====
-- The job 'process-ladder' of `autoBidWorker` in back/src/workers/index.ts.
use auctionhaus.Prelude.{ℕ, List, [], ◌∷◌, map}
use auctionhaus.Schema.{NotificationType}
use auctionhaus.Tx.{Tx, ok, pure, emit, ◌>>=◌, ◌>>◌, bid_ladder, notify}
use auctionhaus.Ladder.{LadderStep, process_ladder}

-- `steps[steps.length - 1]`, of a step and those after it.
unfoldable pub last_step : LadderStep → List LadderStep → LadderStep
last_step s [] = s
last_step s (t ∷ ts) = last_step t ts

-- Each step has its own recipient.
unfoldable pub notify_steps : List LadderStep → Tx (Unit {0})
notify_steps [] w = (ok tt, w)
notify_steps (s ∷ ss) w =
    notify_steps ss
      (record w { outbox = notify s.bidder_id NotificationType.auto_bid_placed ∷ w.outbox })

-- One event for the whole ladder, where it has a step.
unfoldable pub auto_bid_job : ℕ → ℕ → ℕ → Tx (Unit {0})
unfolding last_step
auto_bid_job auction_id trigger_id now = do
  steps ← process_ladder auction_id trigger_id now
  elim steps [
    | [] ↦ pure tt
    | s ∷ ss ↦ (do
      emit (
          bid_ladder auction_id (map (λ t. (t.bid_id, t.amount, t.bidder_id)) (s ∷ ss))
            (last_step s ss).amount (last_step s ss).bid_id)
      notify_steps (s ∷ ss))
  ]
