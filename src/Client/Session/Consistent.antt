-- ===== src/Client/Session/Consistent.antt =====
-- The cookie that the proxy reads and the token that is saved go together.
use auctionhaus.Prelude.{
  ℕ, ◌≡◌, ◌≢◌, refl, ap, ◌∙◌, if◌then◌else◌, Bool, true, false, Option, none, some, List, arith,
}
use auctionhaus.Client.Routes.{
  proxy, login_path, next, to_auctions, to_login, some_route, protected_routes,
}
use auctionhaus.Client.Routes.NoLoop.{proxy-login}
use auctionhaus.Client.Session.{
  absent, malformed, Browser, load_page, is_some, hydrate, set_auth, logout, Reply, on_response,
  validated,
}

-- What happens in a tab. A call other than `/auth/me` is answered, or `/auth/me` is; that call may have
-- been made long before, with a token that the page no longer has.
pub data Step : Browser → Browser → Type 0 where
  load : (b : Browser) → Step b (hydrate (load_page b))
  sign_in : (b : Browser) (user_id token : ℕ) → Step b (set_auth user_id token b)
  sign_out : (b : Browser) → Step b (logout b)
  reply : (b : Browser) (r : Reply) → Step b (on_response false r b)
  validate : (b : Browser) (t : ℕ) (found : Option ℕ) (r : Reply) → Step b (validated t found r b)

pub data Reach (a : Browser) : Browser → Type 0 where
  here : Reach a a
  then_ : {b c : Browser} → Reach a b → Step b c → Reach a c

-- A browser that was never here.
abbrev pub fresh : Browser
fresh = record {
  saved_token = none;
  saved_user = absent;
  cookie = false;
  user = none;
  token = none;
  is_hydrated = false;
}

-- The cookie is set exactly where a token is saved, and the page's token is the saved one.
pub record IsConsistent (b : Browser) : Type 0 where
  pub in_step : b.cookie ≡ is_some b.saved_token
  pub same_token : is_some b.token ≡ true → b.token ≡ b.saved_token
  pub readable : b.saved_user ≢ malformed

Step-IsConsistent : {a b : Browser} → Step a b → IsConsistent a → IsConsistent b
unfolding load_page hydrate set_auth logout on_response validated
Step-IsConsistent (load a) c = ground arith
Step-IsConsistent (sign_in a u t) c = ground arith
Step-IsConsistent (sign_out a) c = ground arith
Step-IsConsistent (reply a Reply.success) c = c
Step-IsConsistent (reply a (Reply.failure status)) c = ground arith
Step-IsConsistent (reply a Reply.unreachable) c = c
Step-IsConsistent (validate a t (some u) Reply.success) c = ground arith
Step-IsConsistent (validate a t none Reply.success) c = ground arith
Step-IsConsistent (validate a t found (Reply.failure status)) c = ground arith
Step-IsConsistent (validate a t found Reply.unreachable) c = ground arith

pub Reach-IsConsistent : {a b : Browser} → IsConsistent a → Reach a b → IsConsistent b
Reach-IsConsistent c here = c
Reach-IsConsistent c (then_ r s) = Step-IsConsistent s (Reach-IsConsistent c r)

fresh-IsConsistent : IsConsistent fresh
fresh-IsConsistent = ground arith

-- In every browser that comes from a new one by loads, sign-ins, sign-outs and answers of the server in
-- any order, the proxy turns a visit of the sign-in page to the auctions where a token is saved, and
-- lets it through where none is.
pub Reach-login :
    (b : Browser)
    → Reach fresh b
    → proxy b.cookie login_path ≡ (if is_some b.saved_token then to_auctions else next)
Reach-login b r =
    let c : IsConsistent b = Reach-IsConsistent fresh-IsConsistent r in
    proxy-login b.cookie ∙ ap (λ x. if x then to_auctions else next) c.in_step

-- An answer of `/auth/me` with a user in it.
abbrev pub confirms : Option ℕ → Reply → Bool
confirms found Reply.success = is_some found
confirms found (Reply.failure status) = false
confirms found Reply.unreachable = false

-- Unless `/auth/me` answers with a user, whatever else it answers, also 500 or nothing at all, the
-- session is over: no token is saved, and a visit of a protected page is turned to the sign-in page.
validated-proxy :
    (t : ℕ) (found : Option ℕ) (r : Reply) (b : Browser) (path : List ℕ)
    → confirms found r ≡ false
    → some_route protected_routes path ≡ true
    → ((validated t found r b).saved_token ≡ none)
      × (proxy (validated t found r b).cookie path ≡ to_login path)
unfolding validated logout proxy
validated-proxy t (some u) Reply.success b path no_user closed = cc
validated-proxy t none Reply.success b path no_user closed = (refl, ground arith)
validated-proxy t found (Reply.failure status) b path no_user closed = (refl, ground arith)
validated-proxy t found Reply.unreachable b path no_user closed = (refl, ground arith)

-- A sign-out while `/auth/me` is under way is undone by the answer: the token is saved again.
validated-logout :
    (t u : ℕ) (b : Browser)
    → ((validated t (some u) Reply.success (logout b)).saved_token ≡ some t)
      × ((validated t (some u) Reply.success (logout b)).cookie ≡ true)
unfolding validated set_auth
validated-logout t u b = (refl, refl)
