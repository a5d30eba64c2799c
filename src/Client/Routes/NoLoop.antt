-- ===== src/Client/Routes/NoLoop.antt =====
-- A redirect leads to a page that is let through.
use auctionhaus.Prelude.{
  if◌then◌else◌, ◌⊎◌, ℕ, ◌≡◌, refl, Bool, true, false, List, arith, Bool-cases, inl, inr,
}
use auctionhaus.Client.Routes.{
  starts_with, some_route, login_path, auctions_path, protected_routes, auth_routes, next, to_login,
  to_auctions, proxy, target,
}

pub proxy-login : (c : Bool) → proxy c login_path ≡ (if c then to_auctions else next)
unfolding proxy some_route starts_with
proxy-login true = refl
proxy-login false = refl

proxy-auctions : (c : Bool) → proxy c auctions_path ≡ next
unfolding proxy some_route starts_with
proxy-auctions true = refl
proxy-auctions false = refl

-- The answers of the proxy.
answers :
    (c : Bool) (path : List ℕ)
    → (proxy c path ≡ next)
      ⊎ (((proxy c path ≡ to_login path) × (c ≡ false))
          ⊎ ((proxy c path ≡ to_auctions) × (c ≡ true)))
unfolding proxy
answers true path = elim (Bool-cases (some_route auth_routes path)) [
  | inl auth ↦ inr (inr (ground arith, refl))
  | inr other ↦ inl (ground arith)
]
answers false path = elim (Bool-cases (some_route protected_routes path)) [
  | inl closed ↦ inr (inl (ground arith, refl))
  | inr free ↦ inl (ground arith)
]

-- Following the answer of the proxy ends at once: from whatever path, with or without the cookie, the
-- page that the browser is sent to is let through.
proxy-target : (c : Bool) (path : List ℕ) → proxy c (target path (proxy c path)) ≡ next
proxy-target c path = elim (answers c path) [
  | inl e ↦ rw (e, e) refl
  | inr (inl (e, signed_out)) ↦ rw (e, signed_out) (proxy-login false)
  | inr (inr (e, signed_in)) ↦ rw (e, signed_in) (proxy-auctions true)
]
