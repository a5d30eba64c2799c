-- ===== src/Fraud/Flags.antt =====
-- back/src/modules/fraud/fraud.service.ts and the handlers of the flags in
-- back/src/modules/fraud/fraud.controller.ts. Scores, their averages and the names of the bidders are
-- left out; a text is a list of character codes.
use auctionhaus.Prelude.{
  ℕ, Bool, true, false, not, ◌&&◌, Option, none, some, List, leb, ◌==◌, if◌then◌else◌, keep, length,
  first_n, find_first, update_first,
}

pub record FlagRow : Type 0 where
  pub id : ℕ
  pub bidder_id : ℕ
  pub auction_id : ℕ
  pub dismissed : Bool

abbrev pub same_as : Option ℕ → ℕ → Bool
same_as none n = true
same_as (some m) n = n == m

abbrev pub same_mark : Bool → Bool → Bool
same_mark a b = if a then b else not b

abbrev pub flag_fits : Bool → Option ℕ → Option ℕ → FlagRow → Bool
flag_fits dismissed auction_id bidder_id f =
    same_mark dismissed f.dismissed
    && same_as auction_id f.auction_id
    && same_as bidder_id f.bidder_id

-- `getFraudFlags` of the service; rows stand newest first.
unfoldable pub get_fraud_flags : Bool → ℕ → Option ℕ → Option ℕ → List FlagRow → List FlagRow
get_fraud_flags dismissed limit auction_id bidder_id rows =
    first_n limit (keep (flag_fits dismissed auction_id bidder_id) rows)

-- `dismissFlag`; none where there is no such flag.
unfoldable pub dismiss_flag : ℕ → List FlagRow → Option (List FlagRow)
unfolding find_first update_first
dismiss_flag id rows = elim (find_first (λ f. f.id == id) rows) [
  | none ↦ none
  | some _ ↦ some (update_first (λ f. f.id == id) (λ f. record f { dismissed = true }) rows)
]

-- The second count of `getFraudStats`.
unfoldable pub undismissed : List FlagRow → ℕ
undismissed rows = length (keep (λ f. not f.dismissed) rows)

-- `getFraudFlags` of the controller: the marks of the query, and their defaults. `coerce` is zod's
-- `z.coerce.boolean()` of a text. None where the limit is out of range.
unfoldable pub fraud_flags_request :
    (List ℕ → Bool)
    → Option (List ℕ)
    → Option ℕ
    → Option ℕ
    → Option ℕ
    → List FlagRow
    → Option (List FlagRow)
unfolding get_fraud_flags
fraud_flags_request coerce dismissed limit auction_id bidder_id rows =
    let mark : Bool = elim dismissed [ none ↦ false | some text ↦ coerce text ] in
    let n : ℕ = elim limit [ none ↦ 50 | some m ↦ m ] in
    if leb 1 n && leb n 200 then some (get_fraud_flags mark n auction_id bidder_id rows) else none
