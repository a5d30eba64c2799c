-- ===== src/Fraud/Ring/Tests.antt =====
-- A small ring that has gone round.
use auctionhaus.Prelude.{ℕ, ◌≡◌, refl, List, [], ◌∷◌}
use auctionhaus.Fraud.Ring.{
  Snapshot, zeros, set_at, get_at, take, insert_sample, sort, pick, figures, fresh_ring, add_sample,
  filled, snapshot,
}
use auctionhaus.Fraud.Ring.Window.{add_all}

abbrev five : List ℕ
five = 7 ∷ 9 ∷ 4 ∷ 8 ∷ 6 ∷ []

run : List ℕ → Snapshot
unfolding zeros set_at get_at take insert_sample sort pick figures fresh_ring add_sample filled
    snapshot add_all
run xs = snapshot 3 (add_all 3 xs (fresh_ring 3))

-- 4, 8 and 6 are left.
median : (run five).p50 ≡ 6
unfolding run
median = refl
