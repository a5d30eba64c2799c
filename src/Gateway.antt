-- ===== src/Gateway.antt =====
-- back/src/gateway/socket.gateway.ts: the rooms of the sockets, and the count of an auction's viewers.
-- A socket is named by a number that is used once.
pub mod Presence
pub mod Rooms
mod Tests
use auctionhaus.Prelude.{
  ℕ, Bool, true, false, not, ◌&&◌, ◌||◌, Option, none, some, List, [], ◌∷◌, keep, length, ◌==◌,
  if◌then◌else◌,
}
use auctionhaus.Accounts.{Role, is_admin}
use auctionhaus.Accounts.Crypto.{Crypto, Claims}

pub data Room : Type 0 where
  auction user : ℕ → Room
  fraud : Room

pub record Member : Type 0 where
  pub socket : ℕ
  pub room : Room

-- The members of all rooms; the auctions for which a timer runs; the counts that were sent, the last
-- one first; and whose each socket is.
pub record Gateway : Type 0 where
  pub members : List Member
  pub timers : List ℕ
  pub sent : List (ℕ × ℕ)
  pub sockets : List (ℕ × Option Claims)

abbrev pub same_room : Room → Room → Bool
same_room (auction a) (auction b) = a == b
same_room (user a) (user b) = a == b
same_room fraud fraud = true
same_room _ _ = false

abbrev pub is_member : ℕ → Room → Member → Bool
is_member socket room m = m.socket == socket && same_room m.room room

unfoldable pub some_member : (Member → Bool) → List Member → Bool
some_member test [] = false
some_member test (m ∷ ms) = test m || some_member test ms

-- `socket.join`; a socket is in a room once.
unfoldable pub join : ℕ → Room → Gateway → Gateway
unfolding some_member
join socket room g =
    if some_member (is_member socket room) g.members
    then g
    else record g { members = record { socket = socket; room = room } ∷ g.members }

unfoldable pub has_timer : ℕ → List ℕ → Bool
has_timer a [] = false
has_timer a (b ∷ bs) = b == a || has_timer a bs

-- `schedulePresenceEmit`
unfoldable pub schedule_presence_emit : ℕ → Gateway → Gateway
unfolding has_timer
schedule_presence_emit a g = if has_timer a g.timers then g else record g { timers = a ∷ g.timers }

abbrev pub watches : ℕ → Member → Bool
watches a m = same_room m.room (auction a)

-- `(await io.in(room).fetchSockets()).length`
unfoldable pub viewers : ℕ → List Member → ℕ
viewers a ms = length (keep (watches a) ms)

-- The timer of an auction fires: the count is sent, or nothing if the adapter fails.
unfoldable pub fire : ℕ → Bool → Gateway → Gateway
unfolding viewers
fire a failed g =
    let rest = keep (λ b. not (b == a)) g.timers in
    if failed
    then record g { timers = rest }
    else record g { timers = rest; sent = (a, viewers a g.members) ∷ g.sent }

-- The middleware: the claims of a token that verifies; without one the socket is nobody's.
unfoldable pub handshake : (C : Crypto) → ℕ → Option C.Token → Option Claims
handshake C now token = elim token [ none ↦ none | some t ↦ C.verify now t ]

-- `connection`
unfoldable pub connect : ℕ → Option Claims → Gateway → Gateway
unfolding join
connect socket who g =
    let g' = record g { sockets = (socket, who) ∷ g.sockets } in
    elim who [
      | none ↦ g'
      | some c ↦
          let g'' = join socket (user c.id) g' in
          if is_admin c.role then join socket fraud g'' else g''
    ]

-- `auction:join` and `auction:leave`
unfoldable pub join_auction : ℕ → ℕ → Gateway → Gateway
unfolding join schedule_presence_emit
join_auction socket a g = schedule_presence_emit a (join socket (auction a) g)

unfoldable pub leave_auction : ℕ → ℕ → Gateway → Gateway
unfolding schedule_presence_emit
leave_auction socket a g =
    schedule_presence_emit a
      (record g { members = keep (λ m. not (is_member socket (auction a) m)) g.members })

-- `disconnecting`: a timer for each auction that the socket watches.
unfoldable pub schedule_room : Room → Gateway → Gateway
unfolding schedule_presence_emit
schedule_room (auction a) g = schedule_presence_emit a g
schedule_room (user u) g = g
schedule_room fraud g = g

unfoldable pub schedule_all : ℕ → List Member → Gateway → Gateway
unfolding schedule_room
schedule_all socket [] g = g
schedule_all socket (m ∷ ms) g =
    schedule_all socket ms (if m.socket == socket then schedule_room m.room g else g)

-- The socket's rooms are left after that.
unfoldable pub disconnect : ℕ → Gateway → Gateway
unfolding schedule_all
disconnect socket g =
    let g' = schedule_all socket g.members g in
    record g' { members = keep (λ m. not (m.socket == socket)) g'.members }
