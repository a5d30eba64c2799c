-- ===== src/Gateway/Rooms.antt =====
-- Who is in which room.
use auctionhaus.Prelude.{
  ℕ, ◌≡◌, refl, Bool, true, false, not, ◌&&◌, ◌||◌, Bool-cases, inl, inr, Option, none, some, List,
  [], ◌∷◌, keep, ◌==◌, arith,
}
use auctionhaus.Accounts.{is_admin}
use auctionhaus.Accounts.Crypto.{Claims}
use auctionhaus.Gateway.{
  Room, auction, user, fraud, Member, Gateway, is_member, join, fire, connect, join_auction,
  leave_auction, disconnect,
}
use auctionhaus.Gateway.Presence.{
  Step, connected, joined, left, fired, gone, Reach, here, next, rest-schedule, rest-schedule_all,
}

-- A socket was connected with claims that pass the test.
unfoldable pub came_with : (Claims → Bool) → ℕ → List (ℕ × Option Claims) → Bool
came_with test socket [] = false
came_with test socket ((s, none) ∷ ss) = came_with test socket ss
came_with test socket ((s, some c) ∷ ss) = (s == socket && test c) || came_with test socket ss

-- Anybody may watch an auction; a user's room is for the user, and the room of the flags for admins.
abbrev pub may_stay : List (ℕ × Option Claims) → ℕ → Room → Bool
may_stay ss socket (auction a) = true
may_stay ss socket (user u) = came_with (λ c. c.id == u) socket ss
may_stay ss socket fraud = came_with (λ c. is_admin c.role) socket ss

unfoldable pub all_may : List (ℕ × Option Claims) → List Member → Bool
all_may ss [] = true
all_may ss (m ∷ ms) = may_stay ss m.socket m.room && all_may ss ms

all_may-keep :
    (ss : List (ℕ × Option Claims)) (p : Member → Bool) (ms : List Member)
    → all_may ss ms ≡ true
    → all_may ss (keep p ms) ≡ true
unfolding all_may keep
all_may-keep ss p [] h = refl
all_may-keep ss p (m ∷ ms) h = ground (arith, all_may-keep ss p ms)

came_with-more :
    (test : Claims → Bool) (socket s : ℕ) (who : Option Claims) (ss : List (ℕ × Option Claims))
    → came_with test socket ss ≡ true
    → came_with test socket ((s, who) ∷ ss) ≡ true
unfolding came_with
came_with-more test socket s none ss h = h
came_with-more test socket s (some c) ss h = ground arith

may_stay-more :
    (r : Room) (socket s : ℕ) (who : Option Claims) (ss : List (ℕ × Option Claims))
    → may_stay ss socket r ≡ true
    → may_stay ((s, who) ∷ ss) socket r ≡ true
may_stay-more (auction a) socket s who ss h = refl
may_stay-more (user u) socket s who ss h = came_with-more (λ c. c.id == u) socket s who ss h
may_stay-more fraud socket s who ss h = came_with-more (λ c. is_admin c.role) socket s who ss h

all_may-more :
    (s : ℕ) (who : Option Claims) (ss : List (ℕ × Option Claims)) (ms : List Member)
    → all_may ss ms ≡ true
    → all_may ((s, who) ∷ ss) ms ≡ true
unfolding all_may
all_may-more s who ss [] h = refl
all_may-more s who ss (m ∷ ms) h =
    ground (arith, all_may-more s who ss ms, may_stay-more m.room m.socket s who ss)

all_may-join :
    (socket : ℕ) (r : Room) (g : Gateway)
    → may_stay g.sockets socket r ≡ true
    → all_may g.sockets g.members ≡ true
    → (all_may g.sockets (join socket r g).members ≡ true) × ((join socket r g).sockets ≡ g.sockets)
unfolding join all_may
all_may-join socket r g may h = (ground arith, ground arith)

abbrev Holds : Gateway → Type 0
Holds g = all_may g.sockets g.members ≡ true

Holds-connect :
    (socket : ℕ) (who : Option Claims) (g : Gateway) → Holds g → Holds (connect socket who g)
unfolding connect came_with
Holds-connect socket none g h = all_may-more socket none g.sockets g.members h
Holds-connect socket (some c) g h =
    let g' = record g { sockets = (socket, some c) ∷ g.sockets } in
    let start = all_may-more socket (some c) g.sockets g.members h in
    let own : came_with (λ d. d.id == c.id) socket g'.sockets ≡ true = ground arith in
    let (one, same) = all_may-join socket (user c.id) g' own start in
    elim (Bool-cases (is_admin c.role)) [
      | inl admin ↦
          let entered : came_with (λ d. is_admin d.role) socket g'.sockets ≡ true = ground arith in
          let (two, same') =
            all_may-join socket fraud (join socket (user c.id) g') (rw same entered)
              (rw same one) in
          ground arith
      | inr plain ↦ ground arith
    ]

Step-Holds : {g h : Gateway} → Step g h → Holds g → Holds h
unfolding join_auction leave_auction fire disconnect
Step-Holds (connected g socket who) h = Holds-connect socket who g h
Step-Holds (joined g socket a) h =
    let (one, same) = all_may-join socket (auction a) g refl h in
    let (members, _, sockets) = rest-schedule a (join socket (auction a) g) in ground arith
Step-Holds (left g socket a) h =
    let g' = record g { members = keep (λ m. not (is_member socket (auction a) m)) g.members } in
    let (members, _, sockets) = rest-schedule a g' in
    ground (arith, all_may-keep g.sockets (λ m. not (is_member socket (auction a) m)) g.members)
Step-Holds (fired g a failed) h = ground arith
Step-Holds (gone g socket) h =
    let (members, _, sockets) = rest-schedule_all socket g.members g in
    ground (arith, all_may-keep g.sockets (λ m. not (m.socket == socket)) g.members)

Reach-Holds : {a g : Gateway} → Holds a → Reach a g → Holds g
Reach-Holds h here = h
Reach-Holds h (next r s) = Step-Holds s (Reach-Holds h r)

-- In every state that comes from an empty gateway, each socket in the room of the fraud flags was
-- connected with the claims of an admin, and each socket in a user's room with that user's claims.
pub Reach-all_may :
    (g : Gateway)
    → Reach (record { members = []; timers = []; sent = []; sockets = [] }) g
    → all_may g.sockets g.members ≡ true
unfolding all_may
Reach-all_may g r = Reach-Holds refl r
