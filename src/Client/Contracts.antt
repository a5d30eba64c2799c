-- ===== src/Client/Contracts.antt =====
-- `createAuctionSchema` of front/src/lib/contracts.ts: what the form to create an auction lets through.
pub mod Accepted
mod Tests
use auctionhaus.Prelude.{
  ℕ, Bool, true, false, not, ◌&&◌, ◌||◌, Option, none, some, pos, leb, ltb, ltb_ℤ, length,
  if◌then◌else◌,
}
use auctionhaus.Schema.{is_dutch}
use auctionhaus.AuctionService.Requests.{
  Formats, AuctionForm, optional, is_positive, in_range, has_length, is_datetime, kind_of, time_of,
}

-- The object.
unfoldable pub client_object : Formats → AuctionForm → Bool
client_object fmt f =
    has_length 3 200 f.title
    && leb 10 (length f.description)
    && optional fmt.is_url f.image_url
    && is_positive f.starting_price
    && optional is_positive f.reserve_price
    && optional is_positive f.buy_now_price
    && optional is_positive f.dutch_price_step
    && optional is_positive f.dutch_interval
    && optional is_positive f.min_increment
    && optional (in_range 0 30) f.anti_sniping_mins
    && optional (is_datetime fmt) f.start_time
    && optional (is_datetime fmt) f.end_time

abbrev pub is_given {ℓ} : {A : Type ℓ} → Option A → Bool
is_given none = false
is_given (some _) = true

-- The refinement: a Dutch auction has a step and an interval of a minute at least, any other has an end
-- that is later than now.
unfoldable pub client_refine : Formats → ℕ → AuctionForm → Bool
client_refine fmt now f =
    if is_dutch (kind_of f)
    then is_given f.dutch_price_step
      && elim f.dutch_interval [ none ↦ false | some i ↦ not (ltb_ℤ i (pos 60)) ]
    else elim (time_of fmt f.end_time) [ none ↦ false | some t ↦ ltb now t ]

unfoldable pub client_accepts : Formats → ℕ → AuctionForm → Bool
unfolding client_object client_refine
client_accepts fmt now f = client_object fmt f && client_refine fmt now f
