-- ===== src/Cron/Tests.antt =====
-- Two expressions, and each theorem at an input.
use joshua_ai.Base.{
  ℕ, suc, ◌+◌, ◌*◌, ◌-◌, ◌/◌, ◌%◌, true, Option, some, none, List, [], ◌∷◌, ◌≡◌, refl,
  if◌then◌else◌, leb, ◌&&◌,
}
use joshua_ai.Base.Text.{Text, codes, strip, split, cut, is_space}
use joshua_ai.Cron.{
  Schedule, Day, steps, split_space, part_step, part_bounds, parse_part, parse_parts, parse_field,
  parse_fields, parse_cron, day_ok, day_fires, clock_fires, scan, compute_next_cron, max_scan_days,
  day_minutes,
}
use joshua_ai.Cron.Scan.{First, compute_next_cron-First}

program : Unit {0}
unfolding strip split cut is_space steps split_space part_step part_bounds parse_part parse_parts
    parse_field parse_fields parse_cron day_ok day_fires clock_fires scan compute_next_cron
program = tt

-- Numbers of decimal digits.
abbrev digits : ℕ → Text → Option ℕ
digits value [] = some value
digits value (c ∷ s) =
    let rest = digits (value * 10 + (c - 48)) s in if leb 48 c && leb c 57 then rest else none

abbrev int_of : Text → Option ℕ
int_of [] = none
int_of (c ∷ s) = digits 0 (c ∷ s)

-- Months of thirty days, from a Monday.
abbrev calendar : ℕ → Day
calendar day = record { month = suc (day / 30 % 12); day = suc (day % 30); weekday = day % 7 }

abbrev quarter : List ℕ
quarter = 0 ∷ 15 ∷ 30 ∷ 45 ∷ []

every_quarter : parse_field int_of (codes "*/15") 0 59 ≡ some quarter
unfolding program
every_quarter = refl

zero_step : parse_field int_of (codes "*/0") 0 59 ≡ none
unfolding program
zero_step = refl

-- Every quarter of nine o'clock.
abbrev nine : Schedule
nine = record {
  minutes = quarter;
  hours = 9 ∷ [];
  doms = steps 31 1 1;
  months = steps 12 1 1;
  dows = steps 7 0 1;
  dom_star = true;
  dow_star = true;
}

nine_parses : parse_cron int_of (codes "*/15 9 * * *") ≡ some nine
unfolding program
nine_parses = refl

next_fire : compute_next_cron calendar int_of (codes "*/15 9 * * *") (555 * 60) ≡ some 570
unfolding program
next_fire = refl

compute_next_cron-First_example :
    First calendar nine
      (555 * 60 / 60 + 1)
      (555 * 60 / 60 + 1 + max_scan_days * day_minutes)
      (compute_next_cron calendar int_of (codes "*/15 9 * * *") (555 * 60))
compute_next_cron-First_example =
    compute_next_cron-First calendar int_of (codes "*/15 9 * * *") (555 * 60) nine nine_parses
