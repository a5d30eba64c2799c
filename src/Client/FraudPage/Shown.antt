-- ===== src/Client/FraudPage/Shown.antt =====
-- What the page of the flags shows.
use auctionhaus.Prelude.{
  ℕ, zero, suc, ◌≡◌, ◌≤◌, ap, refl, Bool, true, Bool-cases, inl, inr, some, none, List, [], ◌∷◌,
  All, keep, length, first_n, arith,
}
use auctionhaus.Fraud.Flags.{FlagRow, flag_fits, get_fraud_flags, undismissed}
use auctionhaus.Client.FraudPage.{open_flags}

All-first_n : (P : FlagRow → Type 0) (n : ℕ) (fs : List FlagRow) → All P fs → All P (first_n n fs)
unfolding first_n
All-first_n P zero fs h = tt
All-first_n P (suc n) [] h = tt
All-first_n P (suc n) (f ∷ fs) h = (h.0, All-first_n P n fs h.1)

All-keep_dismissed :
    (fs : List FlagRow) → All (λ f. f.dismissed ≡ true) (keep (flag_fits true none none) fs)
unfolding keep
All-keep_dismissed [] = tt
All-keep_dismissed (f ∷ fs) =
    let rest = All-keep_dismissed fs in
    elim (Bool-cases f.dismissed) [
      | inl gone ↦ ground (arith, gone, rest)
      | inr open_ ↦ ground (arith, open_, rest)
    ]

undismissed-le : (rows : List FlagRow) → undismissed rows ≤ length rows
unfolding undismissed keep
undismissed-le [] = ground arith
undismissed-le (f ∷ fs) =
    let rest = undismissed-le fs in
    elim (Bool-cases f.dismissed) [
      | inl gone ↦ ground (arith, gone, rest)
      | inr open_ ↦ ground (arith, open_, rest)
    ]

-- Where every flag is open, none is kept as dismissed.
all_open-none :
    (rows : List FlagRow)
    → undismissed rows ≡ length rows
    → keep (flag_fits true none none) rows ≡ []
unfolding undismissed keep
all_open-none [] h = refl
all_open-none (f ∷ fs) h =
    let rest = all_open-none fs in
    let at_most = undismissed-le fs in
    elim (Bool-cases f.dismissed) [
      | inl gone ↦ ground (arith, gone, at_most, h)
      | inr open_ ↦ ground (arith, open_, rest, h)
    ]

-- The list of open flags that the page of the administrator asks for has dismissed ones only, where
-- zod's coercion reads a text that is not empty as true, as JavaScript's `Boolean` does: the page
-- writes the mark as the text "false". While every flag is open, the list is empty.
pub open_flags-dismissed :
    (coerce : List ℕ → Bool) (truthy : (c : ℕ) (cs : List ℕ) → coerce (c ∷ cs) ≡ true)
    (rows : List FlagRow)
    → (shown : List FlagRow) × (open_flags coerce rows ≡ some shown)
      × All (λ f. f.dismissed ≡ true) shown
      × (undismissed rows ≡ length rows → shown ≡ [])
unfolding open_flags get_fraud_flags first_n
open_flags-dismissed coerce truthy rows = (
  first_n 50 (keep (flag_fits true none none) rows),
  ap (λ b. some (get_fraud_flags b 50 none none rows)) (truthy 102 (97 ∷ 108 ∷ 115 ∷ 101 ∷ [])),
  All-first_n (λ f. f.dismissed ≡ true) 50 _ (All-keep_dismissed rows),
  λ all_open. ap (first_n 50) (all_open-none rows all_open),
)
