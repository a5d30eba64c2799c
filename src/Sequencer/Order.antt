-- ===== src/Sequencer/Order.antt =====
-- The consumer against the plain order of the stream.
use auctionhaus.Prelude.{true, false}
use auctionhaus.Prelude.{
  ℕ, zero, suc, ◌+◌, ◌*◌, ◌≤◌, ◌≡◌, ◌≢◌, ◌∙◌, sym, ap, refl, List, [], ◌∷◌, ◌++◌, length, ◌==◌,
  Bool-cases, inl, inr, arith, ==→eq, ==_refl,
}
use mathlib.Core.Path.{subst}
use auctionhaus.Tx.{World}
use auctionhaus.Sequencer.Streams.{
  Redis, IsStream, Entry, Delivery, delivered, first_entries, later_entries,
}
use auctionhaus.Sequencer.{
  Server, handle_entry, process_entry, process_entries, process_deliveries, consume, consume_loop,
}

-- The specification: the entries of an auction are handled one after the other.
unfoldable pub place_all : ℕ → ℕ → List Entry → World → World
place_all now auction_id [] w = w
place_all now auction_id (e ∷ es) w =
    place_all now auction_id es (handle_entry now auction_id e.fields w)

place_all-append :
    (now k : ℕ) (es fs : List Entry) (w : World)
    → place_all now k (es ++ fs) w ≡ place_all now k fs (place_all now k es w)
unfolding place_all
place_all-append now k [] fs w = refl
place_all-append now k (e ∷ es) fs w = place_all-append now k es fs (handle_entry now k e.fields w)

first-later : (n : ℕ) (es : List Entry) → first_entries n es ++ later_entries n es ≡ es
unfolding first_entries later_entries
first-later zero es = refl
first-later (suc n) [] = refl
first-later (suc n) (e ∷ es) = ap (λ l. e ∷ l) (first-later n es)

length-later : (n m : ℕ) (es : List Entry) → length es ≤ n + m → length (later_entries n es) ≤ m
unfolding later_entries
length-later zero m es few = omega (arith, few)
length-later (suc n) m [] few = omega arith
length-later (suc n) m (e ∷ es) few = length-later n m es (omega (arith, few))

length-none : (es : List Entry) → length es ≤ 0 → es ≡ []
length-none [] few = refl
length-none (e ∷ es) few = grind (arith, few)

append-none : (es fs : List Entry) → es ++ fs ≡ [] → (es ≡ []) × (fs ≡ [])
append-none [] fs none = (refl, none)
append-none (e ∷ es) fs none = grind arith

delivered-hit :
    (k : ℕ) (d : Delivery) (ds : List Delivery)
    → (d.auction_id == k) ≡ true
    → delivered k (d ∷ ds) ≡ d.entries ++ delivered k ds
unfolding delivered
delivered-hit k d ds hit = rw hit refl

delivered-miss :
    (k : ℕ) (d : Delivery) (ds : List Delivery)
    → (d.auction_id == k) ≡ false
    → delivered k (d ∷ ds) ≡ delivered k ds
unfolding delivered
delivered-miss k d ds miss = rw miss refl

delivered-none :
    (k : ℕ) (d : Delivery) (ds : List Delivery) → delivered k (d ∷ ds) ≡ [] → delivered k ds ≡ []
delivered-none k d ds none = elim (Bool-cases (d.auction_id == k)) [
  | inl hit ↦ (append-none d.entries (delivered k ds) (sym (delivered-hit k d ds hit) ∙ none)).1
  | inr miss ↦ sym (delivered-miss k d ds miss) ∙ none
]

entries-none :
    (d : Delivery) (ds : List Delivery) → delivered d.auction_id (d ∷ ds) ≡ [] → d.entries ≡ []
entries-none d ds none =
    (append-none d.entries (delivered d.auction_id ds)
      (sym (delivered-hit d.auction_id d ds (==_refl d.auction_id)) ∙ none)).0

==-no : (a b : ℕ) → (a == b) ≡ false → a ≢ b
==-no a b h e = ground arith

module _ (R : Redis) (L : IsStream R) (now k : ℕ) where
  process_entries-world :
      (j : ℕ) (es : List Entry) (s : Server R)
      → (process_entries R now j es s).world ≡ place_all now j es s.world
  unfolding process_entries process_entry place_all
  process_entries-world j [] s = refl
  process_entries-world j (e ∷ es) s = process_entries-world j es (process_entry R now j e s)

  process_entries-unread :
      (i j : ℕ) (es : List Entry) (s : Server R)
      → L.unread i (process_entries R now j es s).redis ≡ L.unread i s.redis
  unfolding process_entries process_entry
  process_entries-unread i j [] s = refl
  process_entries-unread i j (e ∷ es) s =
      process_entries-unread i j es (process_entry R now j e s) ∙ L.xack-rest i j e.id s.redis

  process_deliveries-unread :
      (i : ℕ) (ds : List Delivery) (s : Server R)
      → L.unread i (process_deliveries R now ds s).redis ≡ L.unread i s.redis
  unfolding process_deliveries
  process_deliveries-unread i [] s = refl
  process_deliveries-unread i (d ∷ ds) s =
      process_deliveries-unread i ds (process_entries R now d.auction_id d.entries s)
      ∙ process_entries-unread i d.auction_id d.entries s

  -- Where only one stream is delivered, its entries are handled in their order.
  process_deliveries-world :
      (ds : List Delivery) (s : Server R)
      → ((j : ℕ) → j ≢ k → delivered j ds ≡ [])
      → (process_deliveries R now ds s).world ≡ place_all now k (delivered k ds) s.world
  unfolding process_deliveries delivered place_all
  process_deliveries-world [] s alone = refl
  process_deliveries-world (d ∷ ds) s alone =
      let next = process_entries R now d.auction_id d.entries s in
      let rest =
        process_deliveries-world ds next (λ j other. delivered-none j d ds (alone j other)) in
      elim (Bool-cases (d.auction_id == k)) [
        | inl hit ↦
            rest
            ∙ ap (place_all now k (delivered k ds)) (
                process_entries-world d.auction_id d.entries s
                ∙ ap (λ j. place_all now j d.entries s.world) (==→eq d.auction_id k hit))
            ∙ sym (place_all-append now k d.entries (delivered k ds) s.world)
            ∙ ap (λ es. place_all now k es s.world) (sym (delivered-hit k d ds hit))
        | inr miss ↦
            rest
            ∙ ap (place_all now k (delivered k ds)) (
                process_entries-world d.auction_id d.entries s
                ∙ ap (λ es. place_all now d.auction_id es s.world)
                    (entries-none d ds (alone d.auction_id (==-no d.auction_id k miss))))
            ∙ ap (λ es. place_all now k es s.world) (sym (delivered-miss k d ds miss))
      ]

  consume-world :
      (s : Server R)
      → ((j : ℕ) → j ≢ k → L.unread j s.redis ≡ [])
      → (consume R now s).world ≡ place_all now k (first_entries 10 (L.unread k s.redis)) s.world
  unfolding consume first_entries
  consume-world s alone =
      process_deliveries-world (R.xreadgroup (R.scan s.redis) s.redis).0 _
        (λ j other. L.read-delivers j s.redis ∙ ap (first_entries 10) (alone j other))
      ∙ ap (λ es. place_all now k es s.world) (L.read-delivers k s.redis)

  consume-unread :
      (i : ℕ) (s : Server R)
      → L.unread i (consume R now s).redis ≡ later_entries 10 (L.unread i s.redis)
  unfolding consume
  consume-unread i s =
      process_deliveries-unread i (R.xreadgroup (R.scan s.redis) s.redis).0 _
      ∙ L.read-rest i s.redis

-- While only one auction has entries that no consumer has seen, passes of the consumer for ten entries
-- each, enough for their number, do to the tables and the outbox what handling the entries one after
-- the other in the stream's order does, and leave none unseen.
pub consume_loop-order :
    (R : Redis) (L : IsStream R) (n now k : ℕ) (s : Server R)
    → ((j : ℕ) → j ≢ k → L.unread j s.redis ≡ [])
    → length (L.unread k s.redis) ≤ 10 * n
    → ((consume_loop R n now s).world ≡ place_all now k (L.unread k s.redis) s.world)
      × (L.unread k (consume_loop R n now s).redis ≡ [])
unfolding consume_loop place_all later_entries
consume_loop-order R L zero now k s alone few =
    let none = length-none (L.unread k s.redis) few in
    (ap (λ es. place_all now k es s.world) (sym none), none)
consume_loop-order R L (suc n) now k s alone few =
    let es = L.unread k s.redis in
    let unread = consume-unread R L now k k s in
    let (world, none) =
      consume_loop-order R L n now k (consume R now s)
        (λ j other. consume-unread R L now k j s ∙ ap (later_entries 10) (alone j other))
        (subst (λ fs. length fs ≤ 10 * n) (sym unread)
          (length-later 10 (10 * n) es (omega (arith, few)))) in
    (
      world
          ∙ ap (λ fs. place_all now k fs (consume R now s).world) unread
          ∙ ap (place_all now k (later_entries 10 es)) (consume-world R L now k s alone)
          ∙ sym (place_all-append now k (first_entries 10 es) (later_entries 10 es) s.world)
          ∙ ap (λ fs. place_all now k fs s.world) (first-later 10 es),
      none,
    )
