-- ===== src/Client/Contracts/Tests.antt =====
-- A Dutch auction without an end, from 20.00 down to 5.00 in steps of 4.00 every minute: four drops.
use auctionhaus.Prelude.{ℕ, ◌≡◌, refl, some, none, true, length, pos, List, [], ◌∷◌}
use auctionhaus.Schema.{AuctionType}
use auctionhaus.AuctionService.Requests.{Formats, AuctionForm, end_of}
use auctionhaus.AuctionService.Requests.Ends.{exact_drops}

-- A time is given by its length.
abbrev formats : Formats
formats = record { is_url = λ s. true; read_time = λ s. some (length s); drop_count = exact_drops }

abbrev words : List ℕ
words = 97 ∷ 98 ∷ 99 ∷ 100 ∷ 101 ∷ 102 ∷ 103 ∷ 104 ∷ 105 ∷ 106 ∷ []

abbrev form : AuctionForm
form = record {
  title = words;
  description = words;
  image_url = none;
  kind = some AuctionType.dutch;
  starting_price = pos 2000;
  reserve_price = some (pos 500);
  buy_now_price = none;
  dutch_price_step = some (pos 400);
  dutch_interval = some (pos 60);
  min_increment = none;
  anti_sniping_mins = none;
  start_time = none;
  end_time = none;
}

four_drops : end_of formats form 100 ≡ some 240100
unfolding end_of exact_drops
four_drops = refl
