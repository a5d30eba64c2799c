-- ===== src/Fraud/Ring.antt =====
-- `LatencyRing` of back/src/modules/fraud/fraud.engine.ts: the most recent samples in a ring. Its size,
-- RESERVOIR_SIZE (1024), is a parameter; a sample is a number of some small unit of time, and the
-- rounding of the answers to four decimals is left out.
pub mod Window
mod Tests
use auctionhaus.Prelude.{
  ℕ, zero, suc, ◌+◌, ◌-◌, ◌*◌, ◌/◌, ◌%◌, min, Bool, true, false, List, [], ◌∷◌, leb, ◌==◌, ◌||◌,
  if◌then◌else◌,
}

pub record LatencyRing : Type 0 where
  pub buf : List ℕ
  pub idx : ℕ
  pub full : Bool
  pub total_samples : ℕ

-- `new Float64Array(size)`
unfoldable pub zeros : ℕ → List ℕ
zeros zero = []
zeros (suc n) = 0 ∷ zeros n

-- `buf[i] = x`
unfoldable pub set_at : List ℕ → ℕ → ℕ → List ℕ
set_at [] i x = []
set_at (_ ∷ ys) zero x = x ∷ ys
set_at (y ∷ ys) (suc i) x = y ∷ set_at ys i x

-- `arr[i]`, zero out of range.
unfoldable pub get_at : List ℕ → ℕ → ℕ
get_at [] i = 0
get_at (y ∷ _) zero = y
get_at (_ ∷ ys) (suc i) = get_at ys i

-- `subarray(0, n)`
unfoldable pub take : ℕ → List ℕ → List ℕ
take zero xs = []
take (suc n) [] = []
take (suc n) (x ∷ xs) = x ∷ take n xs

unfoldable pub insert_sample : ℕ → List ℕ → List ℕ
insert_sample x [] = x ∷ []
insert_sample x (y ∷ ys) = let rest = insert_sample x ys in if leb x y then x ∷ y ∷ ys else y ∷ rest

-- `sort((a, b) => a - b)`
unfoldable pub sort : List ℕ → List ℕ
unfolding insert_sample
sort [] = []
sort (x ∷ xs) = insert_sample x (sort xs)

pub record Snapshot : Type 0 where
  pub p50 : ℕ
  pub p95 : ℕ
  pub p99 : ℕ
  pub largest : ℕ
  pub samples : ℕ
  pub reservoir_size : ℕ

-- `arr[Math.min(size - 1, Math.floor(q * size))]`, with q in hundredths.
unfoldable pub pick : List ℕ → ℕ → ℕ → ℕ
pick arr size percent = get_at arr (min (size - 1) (percent * size / 100))

-- The figures of a sorted reservoir.
unfoldable pub figures : List ℕ → ℕ → ℕ → Snapshot
figures arr size total = record {
  p50 = pick arr size 50;
  p95 = pick arr size 95;
  p99 = pick arr size 99;
  largest = get_at arr (size - 1);
  samples = total;
  reservoir_size = size;
}

abbrev pub no_figures : Snapshot
no_figures = record { p50 = 0; p95 = 0; p99 = 0; largest = 0; samples = 0; reservoir_size = 0 }

module _ (size : ℕ) where
  -- `reset()`, and the fields of a new ring.
  unfoldable pub fresh_ring : LatencyRing
  fresh_ring = record { buf = zeros size; idx = 0; full = false; total_samples = 0 }

  -- `add(ms)`
  unfoldable pub add_sample : ℕ → LatencyRing → LatencyRing
  add_sample ms r = record {
    buf = set_at r.buf r.idx ms;
    idx = (r.idx + 1) % size;
    full = (r.idx + 1) % size == 0 || r.full;
    total_samples = r.total_samples + 1;
  }

  -- How many samples are there to read.
  unfoldable pub filled : LatencyRing → ℕ
  filled r = if r.full then size else r.idx

  -- `snapshot()`
  unfoldable pub snapshot : LatencyRing → Snapshot
  snapshot r =
      if filled r == 0
      then no_figures
      else figures (sort (take (filled r) r.buf)) (filled r) r.total_samples
