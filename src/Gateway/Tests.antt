-- ===== src/Gateway/Tests.antt =====
-- An admin and a guest watch an auction, and the admin leaves.
use auctionhaus.Prelude.{◌≡◌, ◌||◌, true, false, some, none, refl, keep, []}
use auctionhaus.Accounts.{Role}
use auctionhaus.Accounts.Crypto.{Claims}
use auctionhaus.Gateway.{Gateway, some_member, join, fire, connect, join_auction, disconnect}
use auctionhaus.Gateway.Presence.{
  Reach, here, next, connected, joined, fired, gone, is_right, last_sent, last_failed,
  Reach-is_right,
}
use auctionhaus.Gateway.Rooms.{all_may, Reach-all_may}

abbrev boss : Claims
boss = record { id = 9; email = 90; role = Role.admin }

empty : Gateway
empty = record { members = []; timers = []; sent = []; sockets = [] }

watched : Gateway
unfolding empty connect join some_member join_auction
watched = join_auction 2 10 (join_auction 1 10 (connect 2 none (connect 1 (some boss) empty)))

left_alone : Gateway
unfolding watched fire disconnect
left_alone = fire 10 false (disconnect 1 (fire 10 false watched))

one_left : last_sent 10 left_alone.sent ≡ 1
unfolding last_sent left_alone keep
one_left = refl

run : Reach empty left_alone
unfolding left_alone watched
run =
    next
      (next
        (next
          (next
            (next (next (next here (connected _ 1 (some boss))) (connected _ 2 none))
              (joined _ 1 10))
            (joined _ 2 10))
          (fired _ 10 false))
        (gone _ 1))
      (fired _ 10 false)

Reach-is_right_example : (is_right 10 left_alone || last_failed 10 run) ≡ true
unfolding empty
Reach-is_right_example = Reach-is_right left_alone run 10

Reach-all_may_example : all_may left_alone.sockets left_alone.members ≡ true
unfolding empty
Reach-all_may_example = Reach-all_may left_alone run
