-- ===== src/Client/Countdown.antt =====
-- front/src/components/ui/Countdown.tsx: the text of the time that is left, by its parts, and the urgency.
pub mod Reads
mod Tests
use auctionhaus.Prelude.{ℕ, ◌/◌, ◌%◌, Bool, not, ◌&&◌, ltb, ◌==◌, if◌then◌else◌}

-- `Ended`, `${d}d ${h}h ${m}m`, `${h}h ${m}m ${s}s` and `${m}m ${s}s`.
pub data Remaining : Type 0 where
  ended : Remaining
  days hours : ℕ → ℕ → ℕ → Remaining
  minutes : ℕ → ℕ → Remaining

-- `formatRemaining`, of milliseconds that are 0 where the difference is not positive.
unfoldable pub format_remaining : ℕ → Remaining
format_remaining diff =
    let d = diff / 86400000 in
    let h = diff % 86400000 / 3600000 in
    let m = diff % 3600000 / 60000 in
    let s = diff % 60000 / 1000 in
    if diff == 0
    then ended
    else if ltb 0 d
    then days d h m
    else if ltb 0 h
    then hours h m s
    else minutes m s

pub data Urgency : Type 0 where
  over critical urgent calm : Urgency

-- The colour, for the two thresholds of the component.
unfoldable pub urgency_of : ℕ → ℕ → ℕ → Urgency
urgency_of urgent_ms critical_ms diff =
    let is_over = diff == 0 in
    let is_critical = not is_over && ltb diff critical_ms in
    let is_urgent = not is_over && not is_critical && ltb diff urgent_ms in
    if is_over then over else if is_critical then critical else if is_urgent then urgent else calm
