-- ===== src/AuctionService/Requests.antt =====
-- `createAuction` of back/src/modules/auctions/auction.controller.ts: the schema of the body, and the end
-- that a Dutch auction without one gets. The fields have the types that the schema asks for; texts are
-- lists of character codes. What zod makes of a text is a parameter: whether it is a URL, and the
-- milliseconds of a date and time that it accepts. So is `drop_count`, the number of drops that
-- `Math.ceil((startingPrice - floor) / dutchPriceStep)` comes to in floating point, for amounts in cents
-- and a floor that is not above the price: the double of 0.14 / 0.01 is above 14, and its ceiling 15.
pub mod Ends
use auctionhaus.Prelude.{
  ℕ, ◌+◌, ◌-◌, ◌*◌, ◌/◌, Bool, true, false, ◌&&◌, Option, none, some, List, ℤ, pos, pos_part, leb,
  leb_ℤ, ltb_ℤ, length, if◌then◌else◌,
}
use mathlib.Core.Option
use auctionhaus.Schema.{Auction, AuctionType, is_dutch}
use auctionhaus.Tx.{World, Tx, Result, ok, err}
use auctionhaus.AuctionService.{NewAuction, create_auction, value}

pub record Formats : Type 0 where
  pub is_url : List ℕ → Bool
  pub read_time : List ℕ → Option ℕ
  pub drop_count : ℕ → ℕ → ℕ → ℕ

pub record AuctionForm : Type 0 where
  pub title : List ℕ
  pub description : List ℕ
  pub image_url : Option (List ℕ)
  pub kind : Option AuctionType
  pub starting_price : ℤ
  pub reserve_price : Option ℤ
  pub buy_now_price : Option ℤ
  pub dutch_price_step : Option ℤ
  pub dutch_interval : Option ℤ
  pub min_increment : Option ℤ
  pub anti_sniping_mins : Option ℤ
  pub start_time : Option (List ℕ)
  pub end_time : Option (List ℕ)

-- `.optional()`, and `.default(x)`, which is checked where it is given.
abbrev pub optional {ℓ} : {A : Type ℓ} → (A → Bool) → Option A → Bool
optional test none = true
optional test (some x) = test x

abbrev pub or_default {ℓ} : {A : Type ℓ} → A → Option A → A
or_default x none = x
or_default x (some y) = y

-- `z.number().positive()`
abbrev pub is_positive : ℤ → Bool
is_positive n = ltb_ℤ (pos 0) n

-- `z.number().int().min(lo).max(hi)`
abbrev pub in_range : ℕ → ℕ → ℤ → Bool
in_range lo hi n = leb_ℤ (pos lo) n && leb_ℤ n (pos hi)

-- `z.string().min(lo)` with `max(hi)`
abbrev pub has_length : ℕ → ℕ → List ℕ → Bool
has_length lo hi s = leb lo (length s) && leb (length s) hi

abbrev pub is_datetime : Formats → List ℕ → Bool
is_datetime fmt s = elim (fmt.read_time s) [ none ↦ false | some _ ↦ true ]

-- `createAuctionSchema.parse` passes. The type is one of the enumeration.
unfoldable pub fits_schema : Formats → AuctionForm → Bool
fits_schema fmt f =
    has_length 3 200 f.title
    && leb 10 (length f.description)
    && optional fmt.is_url f.image_url
    && is_positive f.starting_price
    && optional is_positive f.reserve_price
    && optional is_positive f.buy_now_price
    && optional is_positive f.dutch_price_step
    && optional is_positive f.dutch_interval
    && optional is_positive f.min_increment
    && optional (in_range 0 30) f.anti_sniping_mins
    && optional (is_datetime fmt) f.start_time
    && optional (is_datetime fmt) f.end_time

abbrev pub kind_of : AuctionForm → AuctionType
kind_of f = or_default AuctionType.english f.kind

abbrev pub cents : Option ℤ → Option ℕ
cents n = Option.map pos_part n

abbrev pub time_of : Formats → Option (List ℕ) → Option ℕ
time_of fmt none = none
time_of fmt (some s) = fmt.read_time s

-- The end of a Dutch auction without an `endTime`. With a floor above the starting price the source's
-- end is before the start; here it is at the start. `createAuction` refuses both.
unfoldable pub dutch_end : (ℕ → ℕ → ℕ → ℕ) → ℕ → Option ℕ → ℕ → ℕ → ℕ → ℕ
dutch_end drop_count starting reserve step interval start =
    if leb (value reserve) starting
    then start + drop_count starting (value reserve) step * interval * 1000
    else start

-- The end of the auction, or none, where the controller throws a 400.
unfoldable pub end_of : Formats → AuctionForm → ℕ → Option ℕ
unfolding dutch_end
end_of fmt f start = elim (time_of fmt f.end_time) [
  | some t ↦ some t
  | none ↦
      if is_dutch (kind_of f)
      then elim f.dutch_price_step [
        | none ↦ none
        | some step ↦ elim f.dutch_interval [
          | none ↦ none
          | some interval ↦ some (
              dutch_end fmt.drop_count (pos_part f.starting_price) (cents f.reserve_price)
                (pos_part step) (pos_part interval) start)
        ]
      ]
      else none
]

abbrev pub new_auction : AuctionForm → ℕ → ℕ → NewAuction
new_auction f start end_ = record {
  kind = kind_of f;
  starting_price = pos_part f.starting_price;
  reserve_price = cents f.reserve_price;
  buy_now_price = cents f.buy_now_price;
  dutch_price_step = cents f.dutch_price_step;
  dutch_interval = cents f.dutch_interval;
  min_increment = pos_part (or_default (pos 100) f.min_increment);
  anti_sniping_mins = pos_part (or_default (pos 5) f.anti_sniping_mins);
  start_time = start;
  end_time = end_;
}

pub data AuctionResponse : Type 0 where
  -- the body does not fit its schema, or has no end
  invalid no_end : AuctionResponse
  answered : Result Auction → AuctionResponse

-- `createAuction`
unfoldable pub create_auction_request :
    Formats → ℕ → AuctionForm → ℕ → World → AuctionResponse × World
create_auction_request fmt seller_id f now w =
    if fits_schema fmt f
    then (let start = or_default now (time_of fmt f.start_time) in
        elim (end_of fmt f start) [
          | none ↦ (no_end, w)
          | some t ↦
              let (r, w') = create_auction seller_id (new_auction f start t) now w in
              (answered r, w')
        ])
    else (invalid, w)
