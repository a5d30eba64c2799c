-- ===== src/Client/FraudPage.antt =====
-- The flags that front/src/app/admin/fraud/page.tsx asks for.
pub mod Shown
mod Tests
use auctionhaus.Prelude.{ℕ, Bool, Option, none, some, List}
use auctionhaus.Fraud.Flags.{FlagRow, fraud_flags_request}
use auctionhaus.Client.Routes.{codes}

-- `{ params: { dismissed: false, limit: 50 } }`, which goes out as `dismissed=false&limit=50`.
unfoldable pub open_flags : (List ℕ → Bool) → List FlagRow → Option (List FlagRow)
unfolding fraud_flags_request
open_flags coerce rows = fraud_flags_request coerce (some (codes "false")) (some 50) none none rows
