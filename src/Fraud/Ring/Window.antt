-- ===== src/Fraud/Ring/Window.antt =====
-- The ring against a plain list of the most recent samples.
use auctionhaus.Prelude.{
  min, ℕ, zero, suc, ◌+◌, ◌%◌, ◌≤◌, ◌<◌, ◌≡◌, ◌≢◌, ◌∙◌, sym, ap, refl, Bool, true, List, [], ◌∷◌,
  ◌++◌, ◌==◌, if◌then◌else◌, length, length-append, arith, Bool-cases, inl, inr,
}
use native.Mathlib.Nat.{mod_self, mod-eq_of_lt}
use mathlib.Core.List.{append-nil, append_assoc}
use auctionhaus.Fraud.Ring.{
  LatencyRing, Snapshot, zeros, set_at, take, insert_sample, sort, figures, no_figures, fresh_ring,
  add_sample, filled, snapshot,
}

-- The abstract reservoir: the samples, oldest first, at most `size` of them.
abbrev pub without_oldest : List ℕ → List ℕ
without_oldest [] = []
without_oldest (_ ∷ xs) = xs

unfoldable pub keep_recent : ℕ → ℕ → List ℕ → List ℕ
keep_recent size x w = if length w == size then without_oldest w ++ x ∷ [] else w ++ x ∷ []

-- What a snapshot ought to be.
unfoldable pub report : List ℕ → ℕ → Snapshot
report w total = if length w == 0 then no_figures else figures (sort w) (length w) total

insert_sample-swap :
    (x y : ℕ) (l : List ℕ)
    → insert_sample x (insert_sample y l) ≡ insert_sample y (insert_sample x l)
unfolding insert_sample
insert_sample-swap x y [] = ground arith
insert_sample-swap x y (z ∷ l) = ground (arith, insert_sample-swap x y l)

sort-middle : (x : ℕ) (xs ys : List ℕ) → sort (ys ++ x ∷ xs) ≡ insert_sample x (sort (ys ++ xs))
unfolding sort
sort-middle x xs [] = refl
sort-middle x xs (y ∷ ys) =
    ap (insert_sample y) (sort-middle x xs ys) ∙ insert_sample-swap y x (sort (ys ++ xs))

-- The order of the samples does not matter.
sort-swap : (xs ys : List ℕ) → sort (xs ++ ys) ≡ sort (ys ++ xs)
unfolding sort
sort-swap [] ys = ap sort (sym (append-nil ys))
sort-swap (x ∷ xs) ys = ap (insert_sample x) (sort-swap xs ys) ∙ sym (sort-middle x xs ys)

set_at-middle : (xs ys : List ℕ) (x y : ℕ) → set_at (xs ++ y ∷ ys) (length xs) x ≡ xs ++ x ∷ ys
unfolding set_at
set_at-middle [] ys x y = refl
set_at-middle (z ∷ xs) ys x y = ap (λ l. z ∷ l) (set_at-middle xs ys x y)

take-append : (xs ys : List ℕ) → take (length xs) (xs ++ ys) ≡ xs
unfolding take
take-append [] ys = refl
take-append (x ∷ xs) ys = ap (λ l. x ∷ l) (take-append xs ys)

length-zeros : (n : ℕ) → length (zeros n) ≡ n
unfolding zeros
length-zeros zero = refl
length-zeros (suc n) = ap suc (length-zeros n)

-- The buffer is what was written in this round, then a slot and the others of the round before.
record Holds (size : ℕ) (r : LatencyRing) (w : List ℕ) : Type 0 where
  newer : List ℕ
  slot : ℕ
  older : List ℕ
  laid_out : r.buf ≡ newer ++ slot ∷ older
  at : r.idx ≡ length newer
  fits : length newer + 1 + length older ≡ size
  window : w ≡ (if r.full then (slot ∷ older) ++ newer else newer)

keep_recent-full :
    (size x : ℕ) (w : List ℕ) → length w ≡ size → keep_recent size x w ≡ without_oldest w ++ x ∷ []
unfolding keep_recent
keep_recent-full size x w e = ground arith

keep_recent-short : (size x : ℕ) (w : List ℕ) → length w ≢ size → keep_recent size x w ≡ w ++ x ∷ []
unfolding keep_recent
keep_recent-short size x w e = ground arith

module _ (size x : ℕ) (newer : List ℕ) (slot : ℕ) (older : List ℕ) (r : LatencyRing)
    (w : List ℕ) where
  -- The window grows by the sample, and loses its oldest if it is full.
  window-add :
      length newer + 1 + length older ≡ size
      → w ≡ (if r.full then (slot ∷ older) ++ newer else newer)
      → keep_recent size x w ≡ (if r.full then older ++ (newer ++ x ∷ []) else newer ++ x ∷ [])
  window-add n e = elim (Bool-cases r.full) [
    | inl old ↦
        let e' : w ≡ slot ∷ older ++ newer = rw old at e in
        let count : length w ≡ size = rw e' (omega (arith, length-append older newer)) in
        keep_recent-full size x w count ∙ rw (e', old) (append_assoc older newer (x ∷ []))
    | inr young ↦
        let e' : w ≡ newer = rw young at e in
        keep_recent-short size x w (rw e' (omega arith)) ∙ rw (e', young) refl
  ]

  buf-add :
      r.buf ≡ newer ++ slot ∷ older
      → r.idx ≡ length newer
      → (add_sample size x r).buf ≡ newer ++ x ∷ older
  unfolding add_sample
  buf-add b i = rw (b, i) (set_at-middle newer older x slot)

if_same : (b : Bool) (xs : List ℕ) → (if b then xs else xs) ≡ xs
if_same b xs = ground arith

full-wrap :
    (size x : ℕ) (r : LatencyRing) → (r.idx + 1) % size ≡ 0 → (add_sample size x r).full ≡ true
unfolding add_sample
full-wrap size x r e = ground arith

full-go :
    (size x k : ℕ) (r : LatencyRing)
    → (r.idx + 1) % size ≡ k + 1
    → (add_sample size x r).full ≡ r.full
unfolding add_sample
full-go size x k r e = ground arith

idx-add : (size x k : ℕ) (r : LatencyRing) → (r.idx + 1) % size ≡ k → (add_sample size x r).idx ≡ k
unfolding add_sample
idx-add size x k r e = e

Holds-add :
    (size x : ℕ) (newer : List ℕ) (slot : ℕ) (older : List ℕ) (r : LatencyRing) (w : List ℕ)
    → r.buf ≡ newer ++ slot ∷ older
    → r.idx ≡ length newer
    → length newer + 1 + length older ≡ size
    → w ≡ (if r.full then (slot ∷ older) ++ newer else newer)
    → Holds size (add_sample size x r) (keep_recent size x w)
-- The last slot of the round is written, and the next round begins.
Holds-add size x newer slot [] r w b i n e = wrapped (newer ++ x ∷ []) refl
  where
    next : (r.idx + 1) % size ≡ 0
    next =
        let one_round : length newer + 1 ≡ size = omega arith in rw (i, one_round) (mod_self size)

    begun :
        {y : ℕ} {l : List ℕ}
        → newer ++ x ∷ [] ≡ y ∷ l
        → (if r.full then newer ++ x ∷ [] else newer ++ x ∷ [])
          ≡ (if (add_sample size x r).full then (y ∷ l) ++ [] else [])
    begun {y} {l} z =
        if_same r.full (newer ++ x ∷ [])
        ∙ z
        ∙ sym (append-nil (y ∷ l))
        ∙ rw (full-wrap size x r next) refl

    wrapped :
        (l : List ℕ) → newer ++ x ∷ [] ≡ l → Holds size (add_sample size x r) (keep_recent size x w)
    wrapped [] z = absurd (omega (arith, length-append newer (x ∷ []), ap length z))
    wrapped (y ∷ l) z = record {
      newer = [];
      slot = y;
      older = l;
      laid_out = buf-add size x newer slot [] r w b i ∙ z;
      at = idx-add size x 0 r next;
      fits = omega (arith, length-append newer (x ∷ []), ap length z);
      window = window-add size x newer slot [] r w n e ∙ begun z;
    }
Holds-add size x newer slot (y ∷ older) r w b i n e = record {
  newer = newer ++ x ∷ [];
  slot = y;
  older = older;
  laid_out =
      buf-add size x newer slot (y ∷ older) r w b i ∙ sym (append_assoc newer (x ∷ []) (y ∷ older));
  at = idx-add size x (length newer + 1) r next ∙ sym (length-append newer (x ∷ []));
  fits = omega (arith, length-append newer (x ∷ []));
  window = window-add size x newer slot (y ∷ older) r w n e ∙ goes_on;
}
  where
    next : (r.idx + 1) % size ≡ length newer + 1
    next = ap (λ k. (k + 1) % size) i ∙ mod-eq_of_lt (omega arith)

    goes_on :
        (if r.full then (y ∷ older) ++ (newer ++ x ∷ []) else newer ++ x ∷ [])
        ≡ (if (add_sample size x r).full then (y ∷ older) ++ (newer ++ x ∷ []) else newer ++ x ∷ [])
    goes_on = rw (full-go size x (length newer) r next) refl

-- A ring that holds the most recent of the samples seen so far.
record Reservoir (size : ℕ) (r : LatencyRing) (seen w : List ℕ) : Type 0 where
  dropped : List ℕ
  suffix : seen ≡ dropped ++ w
  count : length w ≡ min size (length seen)
  total : r.total_samples ≡ length seen
  holds : Holds size r w

total-add :
    (size x : ℕ) (r : LatencyRing) → (add_sample size x r).total_samples ≡ r.total_samples + 1
unfolding add_sample
total-add size x r = refl

keep_recent-suffix :
    (size x : ℕ) (w : List ℕ)
    → 0 < size
    → (lost : List ℕ) × (w ++ x ∷ [] ≡ lost ++ keep_recent size x w)
keep_recent-suffix size x w pos_size = elim (Bool-cases (length w == size)) [
  | inl fullw ↦ lose w (ground arith)
  | inr short ↦ ([], sym (keep_recent-short size x w (ground arith)))
]
  where
    lose :
        (v : List ℕ)
        → length v ≡ size
        → (lost : List ℕ) × (v ++ x ∷ [] ≡ lost ++ keep_recent size x v)
    lose [] e = absurd (omega arith)
    lose (y ∷ v) e = (y ∷ [], ap (λ l. y ∷ l) (sym (keep_recent-full size x (y ∷ v) e)))

length-without_oldest : (w : List ℕ) → length w ≢ 0 → length (without_oldest w) + 1 ≡ length w
length-without_oldest [] h = absurd (h refl)
length-without_oldest (x ∷ w) h = omega arith

length-keep_recent :
    (size x : ℕ) (w : List ℕ)
    → 0 < size
    → length w ≤ size
    → length (keep_recent size x w) ≡ min size (length w + 1)
length-keep_recent size x w pos_size le = elim (Bool-cases (length w == size)) [
  | inl fullw ↦ rw (keep_recent-full size x w (ground arith)) (
      ground
        (arith, length-append (without_oldest w) (x ∷ []), length-without_oldest w (ground arith)))
  | inr short ↦
      rw (keep_recent-short size x w (ground arith)) (ground (arith, length-append w (x ∷ [])))
]

Reservoir-add :
    (size x : ℕ) (r : LatencyRing) (seen w : List ℕ)
    → 0 < size
    → Reservoir size r seen w
    → Reservoir size (add_sample size x r) (seen ++ x ∷ []) (keep_recent size x w)
Reservoir-add size x r seen w pos_size h =
    let (lost, e) = keep_recent-suffix size x w pos_size in
    let k = h.holds in
    record {
      dropped = h.dropped ++ lost;
      suffix =
          ap (λ l. l ++ x ∷ []) h.suffix
          ∙ append_assoc h.dropped w (x ∷ [])
          ∙ ap (λ l. h.dropped ++ l) e
          ∙ sym (append_assoc h.dropped lost (keep_recent size x w));
      count = omega (
        arith,
        h.count,
        length-keep_recent size x w pos_size (omega (arith, h.count)),
        length-append seen (x ∷ []),
      );
      total = omega (arith, total-add size x r, h.total, length-append seen (x ∷ []));
      holds = Holds-add size x k.newer k.slot k.older r w k.laid_out k.at k.fits k.window;
    }

unfoldable pub add_all : ℕ → List ℕ → LatencyRing → LatencyRing
add_all size [] r = r
add_all size (x ∷ xs) r = add_all size xs (add_sample size x r)

add_all-Reservoir :
    (size : ℕ) (xs : List ℕ) (r : LatencyRing) (seen w : List ℕ)
    → 0 < size
    → Reservoir size r seen w
    → (v : List ℕ) × Reservoir size (add_all size xs r) (seen ++ xs) v
unfolding add_all
add_all-Reservoir size [] r seen w p h = (w, rw (append-nil seen) h)
add_all-Reservoir size (x ∷ xs) r seen w p h =
    let (v, g) =
      add_all-Reservoir size xs (add_sample size x r) (seen ++ x ∷ []) (keep_recent size x w) p
        (Reservoir-add size x r seen w p h) in
    (v, rw (append_assoc seen (x ∷ []) xs) at g)

fresh_ring-Reservoir : (n : ℕ) → Reservoir (suc n) (fresh_ring (suc n)) [] []
unfolding fresh_ring zeros
fresh_ring-Reservoir n = record {
  dropped = [];
  suffix = refl;
  count = omega arith;
  total = refl;
  holds = record {
    newer = [];
    slot = 0;
    older = zeros n;
    laid_out = refl;
    at = refl;
    fits = omega (arith, length-zeros n);
    window = refl;
  };
}

sorted-Holds :
    (size : ℕ) (r : LatencyRing) (w : List ℕ)
    → Holds size r w
    → (filled size r ≡ length w) × (sort (take (filled size r) r.buf) ≡ sort w)
unfolding filled
sorted-Holds size r w h =
    let older = h.slot ∷ h.older in
    let whole : length (h.newer ++ older) ≡ size =
      omega (arith, h.fits, length-append h.newer older) in
    elim (Bool-cases r.full) [
      | inl old ↦
          let e : w ≡ older ++ h.newer = rw old at h.window in
          let all : take size r.buf ≡ h.newer ++ older =
            rw (h.laid_out, ← whole)
              (ap (take (length (h.newer ++ older))) (sym (append-nil (h.newer ++ older)))
                ∙ take-append (h.newer ++ older) []) in
          (
            rw (old, e) (omega (arith, h.fits, length-append older h.newer)),
            rw (old, all, e) (sort-swap h.newer older),
          )
      | inr young ↦
          let e : w ≡ h.newer = rw young at h.window in
          (
            rw (young, e) h.at,
            rw (young, e, h.at, h.laid_out) (ap sort (take-append h.newer older)),
          )
    ]

-- A snapshot of such a ring is the report on those samples.
snapshot-report :
    (size : ℕ) (r : LatencyRing) (seen w : List ℕ)
    → Reservoir size r seen w
    → snapshot size r ≡ report w (length seen)
unfolding snapshot report
snapshot-report size r seen w h =
    let (count, sorted) = sorted-Holds size r w h.holds in rw (sorted, count, h.total) refl

pub snapshot-recent :
    (n : ℕ) (samples : List ℕ)
    → let size = suc n in
      (dropped : List ℕ) × (recent : List ℕ) × (samples ≡ dropped ++ recent)
      × (length recent ≡ min size (length samples))
      × (snapshot size (add_all size samples (fresh_ring size)) ≡ report recent (length samples))
snapshot-recent n samples =
    let size = suc n in
    let (recent, h) =
      add_all-Reservoir size samples (fresh_ring size) [] [] (omega arith)
        (fresh_ring-Reservoir n) in
    (h.dropped, recent, h.suffix, h.count, snapshot-report size _ samples recent h)
