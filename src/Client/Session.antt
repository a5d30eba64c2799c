-- ===== src/Client/Session.antt =====
-- The session of a browser: front/src/store/authStore.ts, the interceptor of front/src/lib/api.ts and
-- front/src/components/AuthProvider.tsx. A user is named by its id; one tab, which runs in a browser.
pub mod Consistent
mod Tests
use auctionhaus.Prelude.{ℕ, Bool, true, false, ◌&&◌, Option, none, some, ◌==◌, if◌then◌else◌}

-- What stands under the key `ah_user`: nothing, a user, or a text that is not JSON.
pub data SavedUser : Type 0 where
  absent malformed : SavedUser
  saved : (user_id : ℕ) → SavedUser

pub record Browser : Type 0 where
  -- `localStorage`, and the cookie `ah_logged_in`
  pub saved_token : Option ℕ
  pub saved_user : SavedUser
  pub cookie : Bool
  -- the store of the page
  pub user : Option ℕ
  pub token : Option ℕ
  pub is_hydrated : Bool

-- A page is loaded: the store begins empty.
unfoldable pub load_page : Browser → Browser
load_page b = record b { user = none; token = none; is_hydrated = false }

abbrev pub is_some : Option ℕ → Bool
is_some none = false
is_some (some _) = true

-- `hydrate`. Where the saved user cannot be parsed, the rest of the `try` is skipped.
unfoldable pub hydrate : Browser → Browser
hydrate b = elim b.saved_user [
  | malformed ↦ record b { is_hydrated = true }
  | absent ↦ record b {
    cookie = if is_some b.saved_token then true else b.cookie;
    user = none;
    token = b.saved_token;
    is_hydrated = true;
  }
  | saved u ↦ record b {
    cookie = if is_some b.saved_token then true else b.cookie;
    user = some u;
    token = b.saved_token;
    is_hydrated = true;
  }
]

-- `setAuth`
unfoldable pub set_auth : ℕ → ℕ → Browser → Browser
set_auth user_id token b = record b {
  saved_token = some token;
  saved_user = saved user_id;
  cookie = true;
  user = some user_id;
  token = some token;
}

-- `logout`
unfoldable pub logout : Browser → Browser
logout b = record b {
  saved_token = none;
  saved_user = absent;
  cookie = false;
  user = none;
  token = none;
}

-- The answer of the server to a call: a status, or no answer at all.
pub data Reply : Type 0 where
  success : Reply
  failure : (status : ℕ) → Reply
  unreachable : Reply

-- The interceptor of responses: a 401 of `/auth/me` drops what is saved of the session. The jump to
-- `/login` that it asks for comes after the handlers of the call have run.
unfoldable pub on_response : Bool → Reply → Browser → Browser
on_response auth_critical success b = b
on_response auth_critical unreachable b = b
on_response auth_critical (failure status) b =
    if status == 401 && is_some b.saved_token && auth_critical
    then record b { saved_token = none; saved_user = absent }
    else b

-- The second effect of `AuthProvider`, once `/auth/me` has answered: `found` is the user in a successful
-- answer, if there is one. `token` is the one that the effect ran with.
unfoldable pub validated : ℕ → Option ℕ → Reply → Browser → Browser
unfolding on_response set_auth logout
validated token found success b = elim found [ some u ↦ set_auth u token b | none ↦ logout b ]
validated token found (failure status) b = logout (on_response true (failure status) b)
validated token found unreachable b = logout b
