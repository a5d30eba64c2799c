-- ===== src/Gateway/Presence.antt =====
-- The count of viewers that was sent last is right, or a timer will send it, or one has failed to.
use auctionhaus.Prelude.{
  ℕ, ◌≡◌, refl, Bool, true, false, not, ◌||◌, Bool-cases, inl, inr, Option, none, some, List, [],
  ◌∷◌, keep, ◌==◌, ==→eq, if◌then◌else◌, arith,
}
use auctionhaus.Accounts.Crypto.{Claims}
use auctionhaus.Gateway.{
  Room, auction, user, fraud, Member, Gateway, same_room, is_member, some_member, join, has_timer,
  schedule_presence_emit, viewers, fire, connect, join_auction, leave_auction, schedule_room,
  schedule_all, disconnect,
}

-- The last count that was sent for an auction, and 0 before the first.
unfoldable pub last_sent : ℕ → List (ℕ × ℕ) → ℕ
last_sent a [] = 0
last_sent a ((b, n) ∷ sent) = if b == a then n else last_sent a sent

abbrev pub is_right : ℕ → Gateway → Bool
is_right a g = has_timer a g.timers || last_sent a g.sent == viewers a g.members

viewers-join :
    (b socket : ℕ) (room : Room) (g : Gateway)
    → same_room room (auction b) ≡ false
    → viewers b (join socket room g).members ≡ viewers b g.members
unfolding viewers join keep
viewers-join b socket room g other = ground arith

one_room :
    (r : Room) (a b : ℕ)
    → (a == b) ≡ false
    → same_room r (auction b) ≡ true
    → same_room r (auction a) ≡ false
one_room (auction c) a b other here = ground arith
one_room (user c) a b other here = cc
one_room fraud a b other here = cc

viewers-leave :
    (b socket a : ℕ) (ms : List Member)
    → (a == b) ≡ false
    → viewers b (keep (λ m. not (is_member socket (auction a) m)) ms) ≡ viewers b ms
unfolding viewers keep
viewers-leave b socket a [] other = refl
viewers-leave b socket a (m ∷ ms) other =
    ground (arith, viewers-leave b socket a ms other, one_room m.room a b other)

pending-schedule :
    (a b : ℕ) (g : Gateway)
    → has_timer b (schedule_presence_emit a g).timers ≡ (a == b || has_timer b g.timers)
unfolding schedule_presence_emit has_timer
pending-schedule a b g = elim (Bool-cases (a == b)) [
  | inl same ↦
      let e : a ≡ b = ==→eq a b same in
      elim (Bool-cases (has_timer a g.timers)) [ inl old ↦ ground arith | inr new ↦ ground arith ]
  | inr other ↦ ground arith
]

pending-keep :
    (a b : ℕ) (ts : List ℕ)
    → (a == b) ≡ false
    → has_timer b (keep (λ t. not (t == a)) ts) ≡ has_timer b ts
unfolding has_timer keep
pending-keep a b [] other = refl
pending-keep a b (t ∷ ts) other = ground (arith, pending-keep a b ts other)

pub rest-schedule :
    (a : ℕ) (g : Gateway)
    → ((schedule_presence_emit a g).members ≡ g.members)
      × ((schedule_presence_emit a g).sent ≡ g.sent)
      × ((schedule_presence_emit a g).sockets ≡ g.sockets)
unfolding schedule_presence_emit
rest-schedule a g = (ground arith, ground arith, ground arith)

right-schedule :
    (a b : ℕ) (g : Gateway) → is_right b g ≡ true → is_right b (schedule_presence_emit a g) ≡ true
right-schedule a b g h =
    let (members, sent, _) = rest-schedule a g in ground (arith, pending-schedule a b g)

rest-schedule_room :
    (r : Room) (g : Gateway)
    → ((schedule_room r g).members ≡ g.members)
      × ((schedule_room r g).sent ≡ g.sent)
      × ((schedule_room r g).sockets ≡ g.sockets)
unfolding schedule_room
rest-schedule_room (auction a) g = rest-schedule a g
rest-schedule_room (user u) g = (refl, refl, refl)
rest-schedule_room fraud g = (refl, refl, refl)

pending-schedule_room :
    (r : Room) (b : ℕ) (g : Gateway)
    → has_timer b (schedule_room r g).timers ≡ (same_room r (auction b) || has_timer b g.timers)
unfolding schedule_room
pending-schedule_room (auction a) b g = pending-schedule a b g
pending-schedule_room (user u) b g = refl
pending-schedule_room fraud b g = refl

-- The timers of a socket that goes, for each auction that it watches.
pub rest-schedule_all :
    (socket : ℕ) (ms : List Member) (g : Gateway)
    → ((schedule_all socket ms g).members ≡ g.members)
      × ((schedule_all socket ms g).sent ≡ g.sent)
      × ((schedule_all socket ms g).sockets ≡ g.sockets)
unfolding schedule_all
rest-schedule_all socket [] g = (refl, refl, refl)
rest-schedule_all socket (m ∷ ms) g =
    let g' = if m.socket == socket then schedule_room m.room g else g in
    let (members, sent, sockets) = rest-schedule_all socket ms g' in
    let (members', sent', sockets') = rest-schedule_room m.room g in
    (ground arith, ground arith, ground arith)

pending-schedule_all :
    (socket b : ℕ) (ms : List Member) (g : Gateway)
    → has_timer b (schedule_all socket ms g).timers
      ≡ (some_member (is_member socket (auction b)) ms || has_timer b g.timers)
unfolding schedule_all some_member
pending-schedule_all socket b [] g = refl
pending-schedule_all socket b (m ∷ ms) g =
    let g' = if m.socket == socket then schedule_room m.room g else g in
    ground (arith, pending-schedule_all socket b ms g', pending-schedule_room m.room b g)

viewers-disconnect :
    (b socket : ℕ) (ms : List Member)
    → some_member (is_member socket (auction b)) ms ≡ false
    → viewers b (keep (λ m. not (m.socket == socket)) ms) ≡ viewers b ms
unfolding viewers keep some_member
viewers-disconnect b socket [] none_ = refl
viewers-disconnect b socket (m ∷ ms) none_ = ground (arith, viewers-disconnect b socket ms)

-- What happens at the gateway. A timer that fires sends the count, or fails.
pub data Step : Gateway → Gateway → Type 0 where
  connected : (g : Gateway) (socket : ℕ) (who : Option Claims) → Step g (connect socket who g)
  joined : (g : Gateway) (socket a : ℕ) → Step g (join_auction socket a g)
  left : (g : Gateway) (socket a : ℕ) → Step g (leave_auction socket a g)
  fired : (g : Gateway) (a : ℕ) (failed : Bool) → Step g (fire a failed g)
  gone : (g : Gateway) (socket : ℕ) → Step g (disconnect socket g)

pub data Reach (g : Gateway) : Gateway → Type 0 where
  here : Reach g g
  next : {h k : Gateway} → Reach g h → Step h k → Reach g k

-- The last timer of an auction that fired in a run has failed.
unfoldable pub last_failed : {g h : Gateway} → ℕ → Reach g h → Bool
last_failed a here = false
last_failed a (next r (fired g b failed)) = if b == a then failed else last_failed a r
last_failed a (next r (connected g socket who)) = last_failed a r
last_failed a (next r (joined g socket b)) = last_failed a r
last_failed a (next r (left g socket b)) = last_failed a r
last_failed a (next r (gone g socket)) = last_failed a r

right-join :
    (socket b : ℕ) (r : Room) (g : Gateway)
    → same_room r (auction b) ≡ false
    → is_right b g ≡ true
    → is_right b (join socket r g) ≡ true
unfolding join
right-join socket b r g other h = ground (arith, viewers-join b socket r g)

right-connect :
    (b socket : ℕ) (who : Option Claims) (g : Gateway)
    → is_right b g ≡ true
    → is_right b (connect socket who g) ≡ true
unfolding connect
right-connect b socket none g h = h
right-connect b socket (some c) g h =
    let g' = record g { sockets = (socket, some c) ∷ g.sockets } in
    let one = right-join socket b (user c.id) g' refl h in
    ground (arith, one, right-join socket b fraud (join socket (user c.id) g') refl one)

right-join_auction :
    (b socket a : ℕ) (g : Gateway)
    → is_right b g ≡ true
    → is_right b (join_auction socket a g) ≡ true
unfolding join_auction
right-join_auction b socket a g h = elim (Bool-cases (a == b)) [
  | inl same ↦ ground (arith, pending-schedule a b (join socket (auction a) g))
  | inr other ↦ right-schedule a b _ (right-join socket b (auction a) g other h)
]

right-leave_auction :
    (b socket a : ℕ) (g : Gateway)
    → is_right b g ≡ true
    → is_right b (leave_auction socket a g) ≡ true
unfolding leave_auction
right-leave_auction b socket a g h =
    let g' = record g { members = keep (λ m. not (is_member socket (auction a) m)) g.members } in
    elim (Bool-cases (a == b)) [
      | inl same ↦ ground (arith, pending-schedule a b g')
      | inr other ↦ right-schedule a b g' (ground (arith, viewers-leave b socket a g.members other))
    ]

-- A timer that counts is right for its own auction.
right-fire : (b a : ℕ) (g : Gateway) → (a == b) ≡ true → is_right b (fire a false g) ≡ true
unfolding fire viewers last_sent
right-fire b a g same = let e = ==→eq a b same in ground arith

right-disconnect :
    (b socket : ℕ) (g : Gateway) → is_right b g ≡ true → is_right b (disconnect socket g) ≡ true
unfolding disconnect
right-disconnect b socket g h =
    let (members, sent, _) = rest-schedule_all socket g.members g in
    let pending = pending-schedule_all socket b g.members g in
    elim (Bool-cases (some_member (is_member socket (auction b)) g.members)) [
      | inl watched ↦ ground arith
      | inr apart ↦ ground (arith, viewers-disconnect b socket g.members apart)
    ]

-- A timer of another auction, also one that fails.
right-fire_other :
    (b a : ℕ) (failed : Bool) (g : Gateway)
    → (a == b) ≡ false
    → is_right b g ≡ true
    → is_right b (fire a failed g) ≡ true
unfolding fire viewers last_sent
right-fire_other b a failed g other h = ground (arith, pending-keep a b g.timers other)

excused : (p q late : Bool) → (p ≡ true → q ≡ true) → (p || late) ≡ true → (q || late) ≡ true
excused true q late step h = ground (arith, step refl)
excused false true late step h = refl
excused false false late step h = h

or_true : (p : Bool) → (p || true) ≡ true
or_true true = refl
or_true false = refl

excused-own :
    (b a : ℕ) (failed : Bool) (g : Gateway)
    → (a == b) ≡ true
    → (is_right b (fire a failed g) || failed) ≡ true
excused-own b a true g same = or_true _
excused-own b a false g same = rw (right-fire b a g same) refl

excused-fire :
    (b a : ℕ) (failed late : Bool) (g : Gateway)
    → (is_right b g || late) ≡ true
    → (is_right b (fire a failed g) || (if a == b then failed else late)) ≡ true
excused-fire b a failed late g h = elim (Bool-cases (a == b)) [
  | inl same ↦ rw same (excused-own b a failed g same)
  | inr other ↦ rw other (excused _ _ _ (right-fire_other b a failed g other) h)
]

-- In every state that comes from an empty gateway by connections, joins, leaves, disconnections and
-- timers, in any order, for every auction a timer is pending, or the count that was sent last is the
-- number of its viewers, or the last timer of the auction that fired has failed: no other change of
-- the viewers is left untold.
pub Reach-is_right :
    (g : Gateway) (r : Reach (record { members = []; timers = []; sent = []; sockets = [] }) g)
    (a : ℕ)
    → (is_right a g || last_failed a r) ≡ true
unfolding has_timer viewers keep last_sent last_failed
Reach-is_right g here a = refl
Reach-is_right g (next r (connected h socket who)) a =
    excused _ _ _ (right-connect a socket who h) (Reach-is_right h r a)
Reach-is_right g (next r (joined h socket b)) a =
    excused _ _ _ (right-join_auction a socket b h) (Reach-is_right h r a)
Reach-is_right g (next r (left h socket b)) a =
    excused _ _ _ (right-leave_auction a socket b h) (Reach-is_right h r a)
Reach-is_right g (next r (fired h b failed)) a =
    excused-fire a b failed (last_failed a r) h (Reach-is_right h r a)
Reach-is_right g (next r (gone h socket)) a =
    excused _ _ _ (right-disconnect a socket h) (Reach-is_right h r a)
