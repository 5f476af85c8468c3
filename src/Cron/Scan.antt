-- ===== src/Cron/Scan.antt =====
-- The search of `compute_next_cron` against its meaning: the first minute that fires.
use joshua_ai.Base.{
  ℕ, zero, suc, ◌+◌, ◌*◌, ◌/◌, ◌≤◌, ◌<◌, Bool, true, false, ◌&&◌, Option, some, none, ◌≡◌, refl,
  arith, leb, Bool-cases, inl, inr, if_cases,
}
use joshua_ai.Base.Text.{Text}
use joshua_ai.Cron.{
  Schedule, Day, day_fires, clock_fires, scan, compute_next_cron, parse_cron, max_scan_days,
  day_minutes,
}

module _ (calendar : ℕ → Day) where
  -- The minute is one of the schedule.
  abbrev pub fires : Schedule → ℕ → Bool
  fires s t = day_fires calendar s t && clock_fires calendar s t

  -- No minute from `a` and before `b` fires.
  abbrev pub Silent : Schedule → ℕ → ℕ → Type 0
  Silent s a b = (t : ℕ) → a ≤ t → t < b → fires s t ≡ false

  -- An answer for the window from `a` to `limit`: the first minute that fires, or none does.
  abbrev pub First : Schedule → ℕ → ℕ → Option ℕ → Type 0
  First s a limit none = Silent s a (limit + 1)
  First s a limit (some t) = (a ≤ t) × (t ≤ limit) × (fires s t ≡ true) × Silent s a t

  -- A day that does not fire has no minute that does.
  day_silent :
      (s : Schedule) (a t : ℕ)
      → day_fires calendar s a ≡ false
      → a ≤ t
      → t < (a / day_minutes + 1) * day_minutes
      → fires s t ≡ false
  unfolding day_fires
  day_silent s a t quiet from before =
      let same_day : t / day_minutes ≡ a / day_minutes = omega arith in rw (same_day, quiet) refl

  append-Silent : (s : Schedule) (a b c : ℕ) → Silent s a b → Silent s b c → Silent s a c
  append-Silent s a b c quiet more t from before = elim (Bool-cases (leb b t)) [
    | inl later ↦ more t (ground arith) before
    | inr sooner ↦ quiet t from (ground arith)
  ]

  later-First :
      (s : Schedule) (a b limit : ℕ) (o : Option ℕ)
      → a ≤ b
      → Silent s a b
      → First s b limit o
      → First s a limit o
  later-First s a b limit none le quiet first = append-Silent s a b (limit + 1) quiet first
  later-First s a b limit (some t) le quiet (from, until, hit, more) =
      (omega arith, until, hit, append-Silent s a b t quiet more)

  -- Nothing lies before its own start.
  empty-Silent : (s : Schedule) (a b : ℕ) → b ≤ a → Silent s a b
  empty-Silent s a b le t from before = absurd (omega arith)

  scan-First :
      (s : Schedule) (limit fuel a : ℕ)
      → limit + 1 ≤ a + fuel
      → First s a limit (scan calendar s limit fuel a)
  unfolding scan
  scan-First s limit zero a enough = empty-Silent s a (limit + 1) (omega arith)
  scan-First s limit (suc fuel) a enough =
      let midnight = (a / day_minutes + 1) * day_minutes in
      if_cases (First s a limit) (leb a limit) _ none
        (λ inside.
          if_cases (First s a limit) (day_fires calendar s a) _ _
            (λ day.
              if_cases (First s a limit) (clock_fires calendar s a) (some a) _
                (λ clock. (
                  omega arith,
                  ground arith,
                  rw (day, clock) refl,
                  empty-Silent s a a (omega arith),
                ))
                (λ no_clock.
                  later-First s a (a + 1) limit (scan calendar s limit fuel (a + 1)) (omega arith)
                    (λ t from before.
                      let same : t ≡ a = omega arith in rw (same, day, no_clock) refl)
                    (scan-First s limit fuel (a + 1) (omega arith))))
            (λ no_day.
              later-First s a midnight limit (scan calendar s limit fuel midnight) (omega arith)
                (λ t from before. day_silent s a t no_day from before)
                (scan-First s limit fuel midnight (omega arith))))
        (λ outside. empty-Silent s a (limit + 1) (ground arith))

  -- The next fire time of an expression is the first minute after the given second that the
  -- schedule fires in, on whatever calendar, and where there is none the schedule is silent for
  -- `max_scan_days` days from the next minute on.
  pub compute_next_cron-First :
      (int_of : Text → Option ℕ) (expr : Text) (after : ℕ) (s : Schedule)
      → parse_cron int_of expr ≡ some s
      → First s
          (after / 60 + 1)
          (after / 60 + 1 + max_scan_days * day_minutes)
          (compute_next_cron calendar int_of expr after)
  unfolding compute_next_cron
  compute_next_cron-First int_of expr after s parsed =
      rw (parsed, compute_next_cron)
        (scan-First s (after / 60 + 1 + max_scan_days * day_minutes)
          (max_scan_days * day_minutes + 1) (after / 60 + 1) (omega arith))
