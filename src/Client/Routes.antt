-- ===== src/Client/Routes.antt =====
-- front/src/proxy.ts: which pages a browser is let through to. A path is the list of its character codes.
pub mod NoLoop
use Prim.Native.Char.{code}
use Prim.Native.String.{String}
use auctionhaus.Prelude.{
  ℕ, Bool, true, false, not, ◌&&◌, ◌||◌, List, [], ◌∷◌, map, ◌==◌, if◌then◌else◌,
}

abbrev pub codes : String → List ℕ
codes String.[] = []
codes (String.◌∷◌ c s) = code c ∷ codes s

-- `pathname.startsWith(route)`
unfoldable pub starts_with : List ℕ → List ℕ → Bool
starts_with path [] = true
starts_with [] (r ∷ route) = false
starts_with (p ∷ path) (r ∷ route) = p == r && starts_with path route

-- `routes.some((route) => pathname.startsWith(route))`
unfoldable pub some_route : List (List ℕ) → List ℕ → Bool
unfolding starts_with
some_route [] path = false
some_route (route ∷ routes) path = starts_with path route || some_route routes path

abbrev pub login_path : List ℕ
login_path = codes "/login"

abbrev pub auctions_path : List ℕ
auctions_path = codes "/auctions"

abbrev pub protected_routes : List (List ℕ)
protected_routes =
    codes "/dashboard"
    ∷ codes "/wallet"
    ∷ codes "/watchlist"
    ∷ codes "/notifications"
    ∷ codes "/profile"
    ∷ codes "/auctions/create"
    ∷ codes "/admin"
    ∷ []

abbrev pub auth_routes : List (List ℕ)
auth_routes = login_path ∷ codes "/register" ∷ []

-- `/login` keeps the page that was asked for in its parameter `from`.
pub data Answer : Type 0 where
  next : Answer
  to_login : (from : List ℕ) → Answer
  to_auctions : Answer

-- `proxy`, for a browser with or without the cookie `ah_logged_in=1`.
unfoldable pub proxy : Bool → List ℕ → Answer
proxy has_token path =
    if some_route protected_routes path && not has_token
    then to_login path
    else if some_route auth_routes path && has_token
    then to_auctions
    else next

abbrev pub target : List ℕ → Answer → List ℕ
target path next = path
target path (to_login from) = login_path
target path to_auctions = auctions_path
