-- ===== src/Cron.antt =====
-- The cron half of core/joshua_core/engine/cron.py. Python's `int` and its calendar are parameters.
-- A `datetime` of one zone computes on the wall clock, so a time is the number of its minute.
pub mod Fields
pub mod Scan
mod Tests
use joshua_ai.Base.{
  ℕ, zero, suc, ◌+◌, ◌-◌, ◌*◌, ◌/◌, ◌%◌, Bool, true, false, not, ◌&&◌, ◌||◌, Option, some, none,
  List, [], ◌∷◌, ◌++◌, ◌==◌, ℕ_eq, List_eq, leb, ltb, is_empty, elem, if◌then◌else◌, keep_if,
}
use joshua_ai.Base.Text.{Text, codes, strip, split, cut, is_space, cons_head}

-- `_MAX_SCAN_DAYS`
abbrev pub max_scan_days : ℕ
max_scan_days = 1500

abbrev pub day_minutes : ℕ
day_minutes = 1440

-- `range(start, end + 1, step)`, by the number of its terms.
unfoldable pub steps : ℕ → ℕ → ℕ → List ℕ
steps zero start step = []
steps (suc n) start step = start ∷ steps n (start + step) step

abbrev pub range : ℕ → ℕ → ℕ → List ℕ
range start end_ step = steps (suc ((end_ - start) / step)) start step

-- `expr.split()`
unfoldable pub split_space : Text → List Text
split_space [] = [] ∷ []
split_space (c ∷ s) = let rest = split_space s in if is_space c then [] ∷ rest else cons_head c rest

abbrev pub words : Text → List Text
words s = keep_if (λ w. not (is_empty w)) (split_space s)

infixl 10 ◌>>=◌
abbrev pub ◌>>=◌ {ℓ κ} : {A : Type ℓ} {B : Type κ} → Option A → (A → Option B) → Option B
none >>= k = none
some a >>= k = k a

-- The value sets of the five fields, and whether the two day fields are `*`.
pub record Schedule : Type 0 where
  pub minutes : List ℕ
  pub hours : List ℕ
  pub doms : List ℕ
  pub months : List ℕ
  pub dows : List ℕ
  pub dom_star : Bool
  pub dow_star : Bool

-- What a calendar says of a day; `weekday` is Monday = 0 as in Python.
pub record Day : Type 0 where
  pub month : ℕ
  pub day : ℕ
  pub weekday : ℕ

-- `int` of a text: `none` where it raises or the number is negative, which every use refuses.
module _ (int_of : Text → Option ℕ) where
  -- The base and the step of a part.
  unfoldable pub part_step : Text → Option (Text × ℕ)
  part_step part = elim (cut b'/' part) [
    | none ↦ some (part, 1)
    | some (base, step_text) ↦ elim (int_of step_text) [
      | none ↦ none
      | some zero ↦ none
      | some (suc k) ↦ some (base, suc k)
    ]
  ]

  unfoldable pub part_bounds : ℕ → ℕ → Text → Option (ℕ × ℕ)
  part_bounds lo hi base =
      let bounds : Option (ℕ × ℕ) = elim (cut b'-' base) [
        | none ↦ elim (int_of base) [ none ↦ none | some n ↦ some (n, n) ]
        | some (start_text, end_text) ↦ elim (int_of start_text) [
          | none ↦ none
          | some start ↦ elim (int_of end_text) [ none ↦ none | some end_ ↦ some (start, end_) ]
        ]
      ] in
      if base == codes "*" || is_empty base then some (lo, hi) else bounds

  abbrev pub in_range : ℕ → ℕ → ℕ × ℕ → ℕ → Option (List ℕ)
  in_range lo hi (start, end_) step =
      if ltb start lo || ltb hi end_ || ltb end_ start then none else some (range start end_ step)

  unfoldable pub parse_part : ℕ → ℕ → Text → Option (List ℕ)
  parse_part lo hi part = elim (part_step (strip part)) [
    | none ↦ none
    | some (base, step) ↦ elim (part_bounds lo hi base) [
      | none ↦ none
      | some bounds ↦ in_range lo hi bounds step
    ]
  ]

  unfoldable pub parse_parts : ℕ → ℕ → List Text → Option (List ℕ)
  parse_parts lo hi [] = some []
  parse_parts lo hi (part ∷ parts) = elim (parse_part lo hi part) [
    | none ↦ none
    | some values ↦ elim (parse_parts lo hi parts) [
      | none ↦ none
      | some rest ↦ some (values ++ rest)
    ]
  ]

  -- `_parse_field`; `split` gives a part at least, so no field is empty.
  unfoldable pub parse_field : Text → ℕ → ℕ → Option (List ℕ)
  parse_field field lo hi = parse_parts lo hi (split b',' field)

  unfoldable pub parse_fields : List Text → Option Schedule
  parse_fields (f1 ∷ f2 ∷ f3 ∷ f4 ∷ f5 ∷ []) = do
    minutes ← parse_field f1 0 59
    hours ← parse_field f2 0 23
    doms ← parse_field f3 1 31
    months ← parse_field f4 1 12
    dows ← parse_field f5 0 6
    some record {
      minutes = minutes;
      hours = hours;
      doms = doms;
      months = months;
      dows = dows;
      dom_star = strip f3 == codes "*";
      dow_star = strip f5 == codes "*";
    }
  parse_fields _ = none

  unfoldable pub parse_cron : Text → Option Schedule
  parse_cron expr = parse_fields (words expr)

unfoldable pub day_ok : Schedule → Day → Bool
day_ok s d =
    let dom_match = elem d.day s.doms in
    let dow_match = elem ((d.weekday + 1) % 7) s.dows in
    if s.dom_star && s.dow_star
    then true
    else if s.dom_star
    then dow_match
    else if s.dow_star
    then dom_match
    else dom_match || dow_match

module _ (calendar : ℕ → Day) where
  -- The test on the day of a minute, and the test on its hour and minute.
  unfoldable pub day_fires : Schedule → ℕ → Bool
  day_fires s t =
      elem (calendar (t / day_minutes)).month s.months && day_ok s (calendar (t / day_minutes))

  unfoldable pub clock_fires : Schedule → ℕ → Bool
  clock_fires s t = elem (t % day_minutes / 60) s.hours && elem (t % day_minutes % 60) s.minutes

  -- The loop, on fuel; `none` is the ValueError of a schedule that does not fire in the window.
  unfoldable pub scan : Schedule → ℕ → ℕ → ℕ → Option ℕ
  scan s limit zero candidate = none
  scan s limit (suc fuel) candidate =
      let next_minute = scan s limit fuel (candidate + 1) in
      let next_day = scan s limit fuel ((candidate / day_minutes + 1) * day_minutes) in
      if leb candidate limit
      then (if day_fires s candidate
          then (if clock_fires s candidate then some candidate else next_minute)
          else next_day)
      else none

  -- `compute_next_cron` after a time in seconds.
  unfoldable pub compute_next_cron : (Text → Option ℕ) → Text → ℕ → Option ℕ
  compute_next_cron int_of expr after = elim (parse_cron int_of expr) [
    | none ↦ none
    | some s ↦
        let start = after / 60 + 1 in
        let limit = start + max_scan_days * day_minutes in
        scan s limit (max_scan_days * day_minutes + 1) start
  ]
