-- ===== src/Cron/Fields.antt =====
-- The values of a parsed field.
use joshua_ai.Base.{
  ℕ, zero, suc, ◌+◌, ◌-◌, ◌*◌, ◌/◌, ◌≤◌, ◌||◌, Option, some, none, List, [], ◌∷◌, ◌++◌, ◌≡◌, refl,
  arith, ltb, All, if_cases, subst,
}
use joshua_ai.Base.Text.{Text, split, strip}
use joshua_ai.Cron.{
  steps, range, part_step, part_bounds, in_range, parse_part, parse_parts, parse_field,
}
use native.Mathlib.Omega.{div_any}

abbrev pub Between : ℕ → ℕ → ℕ → Type 0
Between lo hi v = (lo ≤ v) × (v ≤ hi)

steps-Between :
    (lo hi n start step : ℕ)
    → lo ≤ start
    → start + step * n ≤ hi
    → All (Between lo hi) (steps (suc n) start step)
unfolding steps
steps-Between lo hi zero start step from until = ((from, grind arith), tt)
steps-Between lo hi (suc n) start step from until =
    ((from, grind arith), steps-Between lo hi n (start + step) step (omega arith) (grind arith))

range-Between :
    (lo hi start end_ step : ℕ)
    → lo ≤ start
    → start ≤ end_
    → end_ ≤ hi
    → All (Between lo hi) (range start end_ step)
range-Between lo hi start end_ step from ordered until =
    let whole = div_any (end_ - start) step in
    steps-Between lo hi ((end_ - start) / step) start step from (grind arith)

All-append :
    (lo hi : ℕ) (xs ys : List ℕ)
    → All (Between lo hi) xs
    → All (Between lo hi) ys
    → All (Between lo hi) (xs ++ ys)
All-append lo hi [] ys h k = k
All-append lo hi (x ∷ xs) ys h k = (h.0, All-append lo hi xs ys h.1 k)

-- A value set, if there is one, lies between the bounds.
abbrev pub Inside : ℕ → ℕ → Option (List ℕ) → Type 0
Inside lo hi none = Unit
Inside lo hi (some values) = All (Between lo hi) values

after-Inside :
    {A : Type 0} (lo hi : ℕ) (o : Option A) (f : A → Option (List ℕ))
    → ((a : A) → o ≡ some a → Inside lo hi (f a))
    → Inside lo hi (elim o [ none ↦ none | some a ↦ f a ])
after-Inside lo hi none f inside = tt
after-Inside lo hi (some a) f inside = inside a refl

module _ (int_of : Text → Option ℕ) where
  in_range-Inside :
      (lo hi : ℕ) (bounds : ℕ × ℕ) (step : ℕ) → Inside lo hi (in_range int_of lo hi bounds step)
  in_range-Inside lo hi (start, end_) step =
      if_cases (Inside lo hi) (ltb start lo || ltb hi end_ || ltb end_ start) none
        (some (range start end_ step)) (λ _. tt)
        (λ fits. range-Between lo hi start end_ step (ground arith) (ground arith) (ground arith))

  parse_part-Inside : (lo hi : ℕ) (part : Text) → Inside lo hi (parse_part int_of lo hi part)
  unfolding parse_part
  parse_part-Inside lo hi part = after-Inside lo hi (part_step int_of (strip part)) _ (λ r _.
      after-Inside lo hi (part_bounds int_of lo hi r.0) _
        (λ bounds _. in_range-Inside lo hi bounds r.1))

  parse_parts-Inside :
      (lo hi : ℕ) (parts : List Text) → Inside lo hi (parse_parts int_of lo hi parts)
  unfolding parse_parts
  parse_parts-Inside lo hi [] = tt
  parse_parts-Inside lo hi (part ∷ parts) =
      let all_rest = parse_parts-Inside lo hi parts in
      after-Inside lo hi (parse_part int_of lo hi part) _ (λ values e.
        after-Inside lo hi (parse_parts int_of lo hi parts) _ (λ rest f.
          All-append lo hi values rest (subst (Inside lo hi) e (parse_part-Inside lo hi part))
            (subst (Inside lo hi) f all_rest)))

  -- Every value of a field that parses lies between the bounds of the field, both included.
  pub parse_field-Between :
      (field : Text) (lo hi : ℕ) (values : List ℕ)
      → parse_field int_of field lo hi ≡ some values
      → All (Between lo hi) values
  unfolding parse_field
  parse_field-Between field lo hi values e =
      subst (Inside lo hi) e (parse_parts-Inside lo hi (split b',' field))
