-- ===== src/Sequencer/Pressure.antt =====
-- The threshold is compared with the length of the stream, which consuming does not shorten.
use auctionhaus.Prelude.{ℕ, zero, suc, ◌≤◌, ◌≡◌, ◌∙◌, refl, List, [], ◌∷◌, arith}
use auctionhaus.Tx.{err, stream_saturated}
use auctionhaus.Sequencer.Streams.{Redis, IsStream, Entry, Delivery}
use auctionhaus.Sequencer.{
  Server, enqueue, process_entry, process_entries, process_deliveries, consume, consume_loop,
}

module _ (R : Redis) (L : IsStream R) (now k : ℕ) where
  xlen-process_entries :
      (j : ℕ) (es : List Entry) (s : Server R)
      → R.xlen k (process_entries R now j es s).redis ≡ R.xlen k s.redis
  unfolding process_entries process_entry
  xlen-process_entries j [] s = refl
  xlen-process_entries j (e ∷ es) s =
      xlen-process_entries j es (process_entry R now j e s) ∙ L.xlen-xack k j e.id s.redis

  xlen-process_deliveries :
      (ds : List Delivery) (s : Server R)
      → R.xlen k (process_deliveries R now ds s).redis ≡ R.xlen k s.redis
  unfolding process_deliveries
  xlen-process_deliveries [] s = refl
  xlen-process_deliveries (d ∷ ds) s =
      xlen-process_deliveries ds (process_entries R now d.auction_id d.entries s)
      ∙ xlen-process_entries d.auction_id d.entries s

  xlen-consume : (s : Server R) → R.xlen k (consume R now s).redis ≡ R.xlen k s.redis
  unfolding consume
  xlen-consume s =
      xlen-process_deliveries (R.xreadgroup (R.scan s.redis) s.redis).0 _ ∙ L.xlen-read k s.redis

  xlen-consume_loop :
      (n : ℕ) (s : Server R) → R.xlen k (consume_loop R n now s).redis ≡ R.xlen k s.redis
  unfolding consume_loop
  xlen-consume_loop zero s = refl
  xlen-consume_loop (suc n) s = xlen-consume_loop n (consume R now s) ∙ xlen-consume s

-- A stream that has reached the threshold stays closed: however much of it the consumer has taken and
-- acknowledged since, every further bid of the auction is refused.
pub enqueue-saturated :
    (R : Redis) (L : IsStream R) (now threshold auction_id bidder_id amount rounds : ℕ)
    (s : Server R)
    → threshold ≤ R.xlen auction_id s.redis
    → (enqueue R threshold auction_id bidder_id amount (consume_loop R rounds now s)).0
      ≡ err stream_saturated
unfolding enqueue
enqueue-saturated R L now threshold auction_id bidder_id amount rounds s full =
    ground (arith, xlen-consume_loop R L now auction_id rounds s)
