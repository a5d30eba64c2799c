-- ===== src/AuctionService/Requests/Ends.antt =====
-- When a Dutch auction without an end of its own ends.
use auctionhaus.Prelude.{ℕ, ◌+◌, ◌-◌, ◌*◌, ◌/◌, ◌≤◌, ◌<◌, ◌≡◌, ◌↔◌, Option, none, some, arith}
use native.Mathlib.Nat.{div-lt_iff_lt-mul}

-- The exact ceiling of the quotient.
unfoldable pub exact_drops : ℕ → ℕ → ℕ → ℕ
exact_drops starting floor step = (starting - floor + (step - 1)) / step

exact_drops_le :
    (starting floor step k : ℕ)
    → 0 < step
    → (starting - step * k ≤ floor) ↔ (exact_drops starting floor step ≤ k)
unfolding exact_drops
exact_drops_le starting floor step k h =
    let cut = div-lt_iff_lt-mul {k = step} {x = starting - floor + (step - 1)} {y = k + 1} h in
    let grow : (k + 1) * step ≡ step * k + step = grind arith in
    (
      λ low.
          (let bound : (starting - floor + (step - 1)) / step < k + 1 =
              cut.1 (omega (arith, grow, low)) in
            omega (arith, bound)),
      λ few.
          (let bound : starting - floor + (step - 1) < (k + 1) * step =
              cut.0 (omega (arith, few)) in
            omega (arith, grow, bound)),
    )

-- Prices a hundred times as high take as many drops.
pub exact_drops-cents :
    (starting floor step : ℕ)
    → 0 < step
    → exact_drops (100 * starting) (100 * floor) (100 * step) ≡ exact_drops starting floor step
exact_drops-cents starting floor step h =
    let n = exact_drops starting floor step in
    let m = exact_drops (100 * starting) (100 * floor) (100 * step) in
    let up = exact_drops_le (100 * starting) (100 * floor) (100 * step) n (omega (arith, h)) in
    let down = exact_drops_le starting floor step m h in
    let up_n = (exact_drops_le starting floor step n h).1 (omega arith) in
    let down_m =
      (exact_drops_le (100 * starting) (100 * floor) (100 * step) m (omega (arith, h))).1
        (omega arith) in
    let scale : (k : ℕ) → 100 * step * k ≡ 100 * (step * k) = λ k. grind arith in
    let le : m ≤ n = up.0 (omega (arith, up_n, scale n)) in
    let ge : n ≤ m = down.0 (omega (arith, down_m, scale m)) in omega (arith, le, ge)

-- An amount of whole units, where there is one.
abbrev pub in_cents : Option ℕ → Option ℕ
in_cents none = none
in_cents (some n) = some (100 * n)

-- Doubles hold whole numbers below 2 ^ 53 exactly, and their quotient, which is rounded to the nearest
-- double, is a whole number or lies above one only where the exact quotient does. So the ceiling is
-- exact for prices of whole units, which are the hundredfold in cents.
abbrev pub two_53 : ℕ
two_53 = 9007199254740992
