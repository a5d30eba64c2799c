-- ===== src/Client/FraudPage/Tests.antt =====
-- Two flags, both open, as the page of the administrator gets them.
use auctionhaus.Prelude.{
  ℕ, ◌≡◌, refl, Bool, true, false, some, none, List, [], ◌∷◌, All, length, first_n, keep,
  find_first, update_first,
}
use auctionhaus.Fraud.Flags.{FlagRow, dismiss_flag, undismissed, fraud_flags_request}
use auctionhaus.Client.FraudPage.{open_flags}
use auctionhaus.Client.FraudPage.Shown.{open_flags-dismissed}

abbrev coerce : List ℕ → Bool
coerce [] = false
coerce (_ ∷ _) = true

abbrev rows : List FlagRow
rows =
    record { id = 1; bidder_id = 2; auction_id = 10; dismissed = false }
    ∷ record { id = 2; bidder_id = 3; auction_id = 10; dismissed = false }
    ∷ []

-- Both are listed where the mark is left out.
listed : fraud_flags_request coerce none none (some 10) none rows ≡ some rows
unfolding fraud_flags_request first_n keep
listed = refl

-- A flag that is dismissed is the only one on the page of open flags.
dismissed_row : FlagRow
dismissed_row = record { id = 2; bidder_id = 3; auction_id = 10; dismissed = true }

left : List FlagRow
unfolding dismissed_row
left = record { id = 1; bidder_id = 2; auction_id = 10; dismissed = false } ∷ dismissed_row ∷ []

dismissed_shown :
    (dismiss_flag 2 rows ≡ some left) × (open_flags coerce left ≡ some (dismissed_row ∷ []))
unfolding dismiss_flag open_flags fraud_flags_request first_n keep dismissed_row find_first
    update_first left
dismissed_shown = (refl, refl)

open_flags-dismissed_example :
    (shown : List FlagRow) × (open_flags coerce rows ≡ some shown)
    × All (λ f. f.dismissed ≡ true) shown
    × (undismissed rows ≡ length rows → shown ≡ [])
open_flags-dismissed_example = open_flags-dismissed coerce (λ c cs. refl) rows
