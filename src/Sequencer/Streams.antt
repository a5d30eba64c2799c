-- ===== src/Sequencer/Streams.antt =====
-- What the sequencer uses of Redis, and what it relies on. The streams of the auctions are named by
-- the auctions' ids. (A command of the consumer group 'bid-processors' counts for that group alone.)
use auctionhaus.Prelude.{ℕ, zero, suc, ◌≡◌, Option, List, [], ◌∷◌, ◌++◌, if◌then◌else◌, ◌==◌}

-- The flat array of an entry: what `map.bidderId` and `parseFloat(map.amount)` make of it, `none` where
-- that is nothing or no number.
pub record Fields : Type 0 where
  pub bidder_id : Option ℕ
  pub amount : Option ℕ

pub record Entry : Type 0 where
  pub id : ℕ
  pub fields : Fields

-- One stream of the answer of XREADGROUP.
pub record Delivery : Type 0 where
  pub auction_id : ℕ
  pub entries : List Entry

pub record Redis : Type 1 where
  pub Store : Type 0
  pub xlen : ℕ → Store → ℕ
  -- XADD with MAXLEN ~ 1000; it answers the entry's id
  pub xadd : ℕ → Fields → Store → ℕ × Store
  -- XGROUP CREATE, which does nothing where the group exists
  pub create_group : ℕ → Store → Store
  pub scan : Store → List ℕ
  -- XREADGROUP with COUNT 10 and '>', on the streams given
  pub xreadgroup : List ℕ → Store → List Delivery × Store
  pub xack : ℕ → ℕ → Store → Store

unfoldable pub first_entries : ℕ → List Entry → List Entry
first_entries zero es = []
first_entries (suc n) [] = []
first_entries (suc n) (e ∷ es) = e ∷ first_entries n es

unfoldable pub later_entries : ℕ → List Entry → List Entry
later_entries zero es = es
later_entries (suc n) [] = []
later_entries (suc n) (e ∷ es) = later_entries n es

-- The entries of one stream in an answer.
unfoldable pub delivered : ℕ → List Delivery → List Entry
delivered auction_id [] = []
delivered auction_id (d ∷ ds) =
    let rest = delivered auction_id ds in
    if d.auction_id == auction_id then d.entries ++ rest else rest

-- What Redis documents: a read in the group takes the first ten of the entries that were never
-- delivered, in order; reading and acknowledging leave the length of a stream as it is.
pub record IsStream (R : Redis) : Type 0 where
  pub unread : ℕ → R.Store → List Entry
  pub read-delivers :
      (k : ℕ) (s : R.Store)
      → delivered k (R.xreadgroup (R.scan s) s).0 ≡ first_entries 10 (unread k s)
  pub read-rest :
      (k : ℕ) (s : R.Store) → unread k (R.xreadgroup (R.scan s) s).1 ≡ later_entries 10 (unread k s)
  pub xack-rest : (k j id : ℕ) (s : R.Store) → unread k (R.xack j id s) ≡ unread k s
  pub xlen-read : (k : ℕ) (s : R.Store) → R.xlen k (R.xreadgroup (R.scan s) s).1 ≡ R.xlen k s
  pub xlen-xack : (k j id : ℕ) (s : R.Store) → R.xlen k (R.xack j id s) ≡ R.xlen k s
