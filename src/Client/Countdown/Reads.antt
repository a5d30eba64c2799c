-- ===== src/Client/Countdown/Reads.antt =====
-- The text tells the time.
use auctionhaus.Prelude.{
  ℕ, ◌+◌, ◌*◌, ◌/◌, ◌%◌, ◌≤◌, ◌<◌, ◌≡◌, arith, Bool-cases, inl, inr, ltb, ◌==◌, ==→eq,
}
use auctionhaus.Client.Countdown.{Remaining, ended, days, hours, minutes, format_remaining}

-- The whole seconds that a text stands for; one with days leaves its seconds out.
abbrev pub seconds_of : Remaining → ℕ
seconds_of ended = 0
seconds_of (days d h m) = d * 86400 + h * 3600 + m * 60
seconds_of (hours h m s) = h * 3600 + m * 60 + s
seconds_of (minutes m s) = m * 60 + s

-- How far the text may be behind, in seconds.
abbrev pub step_of : Remaining → ℕ
step_of ended = 1
step_of (days d h m) = 60
step_of (hours h m s) = 1
step_of (minutes m s) = 1

abbrev pub InRange : Remaining → Type 0
InRange ended = Unit {0}
InRange (days d h m) = (0 < d) × (h < 24) × (m < 60)
InRange (hours h m s) = (0 < h) × (h < 24) × (m < 60) × (s < 60)
InRange (minutes m s) = (m < 60) × (s < 60)

-- The text of a time that is left is the time in whole seconds, or in whole minutes from a day on,
-- rounded down, with hours below 24 and minutes and seconds below 60.
format_remaining_lem :
    (diff : ℕ)
    → let r = format_remaining diff in
      (seconds_of r ≤ diff / 1000) × (diff / 1000 < seconds_of r + step_of r) × InRange r
unfolding format_remaining
format_remaining_lem diff = elim (Bool-cases (diff == 0)) [
  | inl over ↦
      (let none_left : diff ≡ 0 = ==→eq diff 0 over in
        rw over (omega (arith, none_left), omega (arith, none_left), tt))
  | inr left ↦ elim (Bool-cases (ltb 0 (diff / 86400000))) [
    | inl long ↦
        rw (left, long) (omega arith, omega arith, (ground arith, omega arith, omega arith))
    | inr day ↦ elim (Bool-cases (ltb 0 (diff % 86400000 / 3600000))) [
      | inl some_hours ↦
          (let no_day : diff / 86400000 ≡ 0 = ground arith in
            rw (left, day, some_hours)
              (
                omega (arith, no_day),
                omega (arith, no_day),
                (ground arith, omega arith, omega arith, omega arith),
              ))
      | inr hour ↦
          (let no_day : diff / 86400000 ≡ 0 = ground arith in
            let no_hour : diff % 86400000 / 3600000 ≡ 0 = ground arith in
            rw (left, day, hour)
              (
                omega (arith, no_day, no_hour),
                omega (arith, no_day, no_hour),
                (omega arith, omega arith),
              ))
    ]
  ]
]
