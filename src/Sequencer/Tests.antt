-- ===== src/Sequencer/Tests.antt =====
-- A Redis with the stream of one auction, and runs of the sequencer on it.
use auctionhaus.Prelude.{
  ℕ, Bool, ◌+◌, ◌≡◌, ◌+ℤ◌, ◌-ℤ◌, neg, refl, sym, false, true, some, List, [], ◌∷◌, ◌++◌, arith,
  if◌then◌else◌, ◌==◌, ==→eq, Bool-cases, inl, inr,
}
use mathlib.Core.List.{append-nil}
use auctionhaus.Tx.{bid_new, ladder_job, err, stream_saturated}
use auctionhaus.Store.{
  find_wallet, find_auction, find_winning, find_settlement, adjust, set_status, adjust_wallet,
  set_bid_status, log_transaction, create_bid, create_settlement, update_auction,
}
use auctionhaus.Escrow.{settle_within_tx, settle_fresh, is_settled, move_money}
use auctionhaus.Bidding.{
  place_bid, accept_bid, validate, check_amount, lock_wallets, check_wallet, release_previous,
  release_bid, hold_bid, is_sniping, after_bid, settle_dutch,
}
use auctionhaus.Tx.{lock_auction, wallet_or}
use auctionhaus.Scenario.{bob, opened}
use auctionhaus.Sequencer.Streams.{Redis, IsStream, Entry, first_entries, later_entries, delivered}
use auctionhaus.Sequencer.{
  Server, handle_entry, enqueue, process_entry, process_entries, process_deliveries, consume,
  consume_loop,
}
use auctionhaus.Sequencer.Pressure.{enqueue-saturated}
use auctionhaus.Sequencer.Order.{consume_loop-order, place_all}

record Stream : Type 0 where
  log : ℕ
  unseen : List Entry

-- The stream of auction 12.
one_stream : Redis
unfolding first_entries later_entries
one_stream = record {
  Store = Stream;
  xlen = λ k s. if 12 == k then s.log else 0;
  xadd = λ k f s. (
    s.log,
    record { log = s.log + 1; unseen = s.unseen ++ record { id = s.log; fields = f } ∷ [] },
  );
  create_group = λ k s. s;
  scan = λ s. 12 ∷ [];
  xreadgroup = λ ks s. (
    record { auction_id = 12; entries = first_entries 10 s.unseen } ∷ [],
    record s { unseen = later_entries 10 s.unseen },
  );
  xack = λ k id s. s;
}

unread_of : ℕ → Stream → List Entry
unread_of k s = if 12 == k then s.unseen else []

first-of :
    (b : Bool) (es : List Entry)
    → (if b then first_entries 10 es ++ [] else []) ≡ first_entries 10 (if b then es else [])
unfolding first_entries
first-of true es = append-nil (first_entries 10 es)
first-of false es = refl

later-of :
    (b : Bool) (es : List Entry)
    → (if b then later_entries 10 es else []) ≡ later_entries 10 (if b then es else [])
unfolding later_entries
later-of true es = refl
later-of false es = refl

one_stream-IsStream : IsStream one_stream
unfolding one_stream unread_of first_entries later_entries delivered
one_stream-IsStream = record {
  unread = unread_of;
  read-delivers = λ k s. first-of (12 == k) s.unseen;
  read-rest = λ k s. later-of (12 == k) s.unseen;
  xack-rest = λ k j id s. refl;
  xlen-read = λ k s. refl;
  xlen-xack = λ k j id s. refl;
}

run : ℕ → ℕ → Server one_stream → Server one_stream
unfolding one_stream consume_loop consume process_deliveries process_entries process_entry
    handle_entry first_entries later_entries place_bid lock_auction accept_bid validate check_amount
    lock_wallets check_wallet release_previous release_bid hold_bid is_sniping after_bid
    settle_dutch wallet_or settle_within_tx settle_fresh is_settled move_money find_wallet
    find_auction find_winning find_settlement adjust set_status adjust_wallet set_bid_status
    log_transaction create_bid create_settlement update_auction ◌+ℤ◌ ◌-ℤ◌ neg
run n now s = consume_loop one_stream n now s

-- Bob's sealed bid of 1500 cents waits in the stream.
abbrev waiting : Server one_stream
unfolding one_stream
waiting = record {
  world = opened;
  redis = record {
    log = 1;
    unseen = record { id = 0; fields = record { bidder_id = some bob; amount = some 1500 } } ∷ [];
  };
}

-- The bid of a live sealed auction is sent to the room with its amount and bidder, as if not sealed.
sent :
    (run 1 10 waiting).world.outbox
    ≡ bid_new 12 21 (some 1500) (some bob) false ∷ ladder_job 12 bob ∷ []
unfolding run
sent = refl

-- What the stream of auction 12 was filled with has been handled, and still counts.
abbrev handled : Server one_stream
unfolding one_stream
handled = record { world = opened; redis = record { log = 2; unseen = [] } }

enqueue-saturated_example :
    (enqueue one_stream 2 12 bob 1500 (consume_loop one_stream 3 10 handled)).0
    ≡ err stream_saturated
unfolding one_stream
enqueue-saturated_example =
    enqueue-saturated one_stream one_stream-IsStream 10 2 12 bob 1500 3 handled (omega arith)

consume_loop-order_example :
    ((consume_loop one_stream 1 10 waiting).world
      ≡ place_all 10 12 (one_stream-IsStream.unread 12 waiting.redis) opened)
    × (one_stream-IsStream.unread 12 (consume_loop one_stream 1 10 waiting).redis ≡ [])
unfolding one_stream unread_of one_stream-IsStream
consume_loop-order_example =
    consume_loop-order one_stream one_stream-IsStream 1 10 12 waiting
      (λ j other. elim (Bool-cases (12 == j)) [
        | inl hit ↦ absurd (other (sym (==→eq 12 j hit)))
        | inr miss ↦ rw miss refl
      ])
      (omega arith)
