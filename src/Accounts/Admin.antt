-- ===== src/Accounts/Admin.antt =====
-- `suspendUser` and `moderateAuction` of back/src/modules/admin/admin.service.ts.
use auctionhaus.Prelude.{ℕ, Bool, none, some, ◌∷◌, if◌then◌else◌}
use auctionhaus.Schema.{AuctionStatus}
use auctionhaus.Store.{find_auction, update_auction}
use auctionhaus.Tx.{
  Tx, Result, ok, err, user_invalidate, user_not_found, suspend_admin, auction_not_found, gets,
  or_raise, modify, ◌>>=◌, ◌>>◌,
}
use auctionhaus.Accounts.{is_admin, Site, find_user, update_user}
use auctionhaus.Accounts.Session.{invalidate_user}

-- The row is updated, this instance's cache evicts the user, and the others are told.
unfoldable pub suspend_user : ℕ → Bool → Site → Result (Unit {0}) × Site
unfolding find_user update_user invalidate_user
suspend_user user_id suspend s = elim (find_user user_id s.people.users) [
  | none ↦ (err user_not_found, s)
  | some u ↦ if is_admin u.role then (err suspend_admin, s) else (
    ok tt,
    record s {
      world = record s.world { outbox = user_invalidate user_id ∷ s.world.outbox };
      people = record s.people {
        users = update_user user_id (λ v. record v { is_suspended = suspend }) s.people.users;
      };
      cache = invalidate_user user_id s.cache;
    },
  )
]

-- The subscriber of 'user:invalidate' in back/src/index.ts.
unfoldable pub on_invalidate : ℕ → Site → Site
unfolding invalidate_user
on_invalidate user_id s = record s { cache = invalidate_user user_id s.cache }

-- `moderateAuction`, to cancel or else to activate.
unfoldable pub moderate_auction : ℕ → Bool → Tx (Unit {0})
unfolding find_auction update_auction
moderate_auction auction_id cancel = do
  found ← gets (λ db. find_auction auction_id db.auctions)
  or_raise found auction_not_found
  modify (
      update_auction auction_id
        λ a. record a { status = if cancel then AuctionStatus.cancelled else AuctionStatus.active })
