-- ===== src/Client/Countdown/Tests.antt =====
-- A day, an hour, a minute and a second, and the last minute.
use auctionhaus.Prelude.{◌≡◌, refl}
use auctionhaus.Client.Countdown.{days, minutes, format_remaining}

long : format_remaining 90061000 ≡ days 1 1 1
unfolding format_remaining
long = refl

short : format_remaining 59999 ≡ minutes 0 59
unfolding format_remaining
short = refl
