-- ===== src/Client/Session/Tests.antt =====
-- A session that is signed in and loaded again.
use auctionhaus.Prelude.{◌≡◌, refl, some, if◌then◌else◌}
use auctionhaus.Client.Routes.{proxy, login_path, to_auctions, next}
use auctionhaus.Client.Session.{Browser, load_page, is_some, hydrate, set_auth}
use auctionhaus.Client.Session.Consistent.{here, then_, load, sign_in, fresh, Reach-login}

-- User 7 signs in with token 70.
signed_in : Browser
unfolding set_auth
signed_in = set_auth 7 70 fresh

reloaded : Browser
unfolding hydrate load_page signed_in
reloaded = hydrate (load_page signed_in)

Reach-login_example :
    proxy reloaded.cookie login_path ≡ (if is_some reloaded.saved_token then to_auctions else next)
unfolding reloaded
Reach-login_example =
    Reach-login reloaded (then_ (then_ here (sign_in fresh 7 70)) (load signed_in))

reloaded_lem : reloaded.saved_token ≡ some 70
unfolding reloaded
reloaded_lem = refl
