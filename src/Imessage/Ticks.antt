-- ===== src/Imessage/Ticks.antt =====
-- The order in which a tick submits rows, and what later ticks make of the same page.
use joshua_ai.Base.{
  ℕ, suc, ◌+◌, ◌≤◌, Option, some, none, List, [], ◌∷◌, ◌==◌, ℕ_eq, keep_if, length, ltb,
  if◌then◌else◌, if_cases, ◌≡◌, refl, ap, sym, ◌∙◌, arith, Option-cases, inl, inr,
}
use joshua_ai.Imessage.Json.{Fields}
use joshua_ai.Imessage.Forwarder.{Settings, Forwarder}
use joshua_ai.Imessage.Reconcile.{
  dated, newer, newest, newer_than, next_watermark, insert_row, oldest_first, Reconciler,
  submit_rows, Ended, returned, raised, tick,
}

abbrev pub Ascending : List (ℕ × Fields) → Type 0
Ascending [] = Unit
Ascending (p ∷ []) = Unit
Ascending (p ∷ q ∷ qs) = (p.0 ≤ q.0) × Ascending (q ∷ qs)

abbrev pub of_date : ℕ → List (ℕ × Fields) → List (ℕ × Fields)
of_date date ps = keep_if (λ p. p.0 == date) ps

Ascending-tail : (p : ℕ × Fields) (ps : List (ℕ × Fields)) → Ascending (p ∷ ps) → Ascending ps
Ascending-tail p [] h = tt
Ascending-tail p (q ∷ qs) h = h.1

insert_row-Ascending :
    (p : ℕ × Fields) (ps : List (ℕ × Fields)) → Ascending ps → Ascending (insert_row p ps)
unfolding insert_row
insert_row-Ascending p [] h = tt
insert_row-Ascending p (q ∷ []) h = ground arith
insert_row-Ascending p (q ∷ r ∷ rs) h = ground (arith, insert_row-Ascending p (r ∷ rs) h.1)

of_date-insert_row :
    (date : ℕ) (p : ℕ × Fields) (ps : List (ℕ × Fields))
    → of_date date (insert_row p ps) ≡ of_date date (p ∷ ps)
unfolding insert_row
of_date-insert_row date p [] = refl
of_date-insert_row date p (q ∷ qs) = ground (arith, of_date-insert_row date p qs)

oldest_first-Ascending : (ps : List (ℕ × Fields)) → Ascending (oldest_first ps)
unfolding oldest_first
oldest_first-Ascending [] = tt
oldest_first-Ascending (p ∷ ps) =
    insert_row-Ascending p (oldest_first ps) (oldest_first-Ascending ps)

of_date-oldest_first :
    (date : ℕ) (ps : List (ℕ × Fields)) → of_date date (oldest_first ps) ≡ of_date date ps
unfolding oldest_first
of_date-oldest_first date [] = refl
of_date-oldest_first date (p ∷ ps) =
    of_date-insert_row date p (oldest_first ps)
    ∙ ap (λ q. if p.0 == date then p ∷ q else q) (of_date-oldest_first date ps)

-- The rows of a tick are submitted by date, the oldest first, and those of each date are the rows
-- of that date in the order of the page, none lost and none twice.
pub oldest_first_lem :
    (ps : List (ℕ × Fields))
    → Ascending (oldest_first ps) × ((date : ℕ) → of_date date (oldest_first ps) ≡ of_date date ps)
oldest_first_lem ps = (oldest_first-Ascending ps, λ date. of_date-oldest_first date ps)

newest-le : (watermark : ℕ) (ps : List (ℕ × Fields)) → watermark ≤ newest watermark ps
newest-le watermark [] = omega arith
newest-le watermark ((date, row) ∷ ps) =
    if_cases (λ (w : ℕ). watermark ≤ newest w ps) (ltb watermark date) date watermark
      (λ later. ground (arith, later, newest-le date ps)) (λ _. newest-le watermark ps)

date_below :
    (watermark bound date : ℕ) (ps : List (ℕ × Fields))
    → newest (if ltb watermark date then date else watermark) ps ≤ bound
    → date ≤ bound
date_below watermark bound date ps h =
    let reached = newest-le (if ltb watermark date then date else watermark) ps in
    ground (arith, reached, h)

newer-newest :
    (watermark bound : ℕ) (ps : List (ℕ × Fields))
    → newest watermark ps ≤ bound
    → newer bound ps ≡ []
newer-newest watermark bound [] h = refl
newer-newest watermark bound ((date, row) ∷ ps) h =
    let next = if ltb watermark date then date else watermark in
    let below : date ≤ bound = date_below watermark bound date ps h in
    ground (arith, below, newer-newest next bound ps h)

newest-bound :
    (watermark bound : ℕ) (ps : List (ℕ × Fields))
    → newest watermark ps ≤ bound
    → newest bound ps ≡ bound
newest-bound watermark bound [] h = refl
newest-bound watermark bound ((date, row) ∷ ps) h =
    let next = if ltb watermark date then date else watermark in
    let below : date ≤ bound = date_below watermark bound date ps h in
    ground (arith, below, newest-bound next bound ps h)

newer_than-dated :
    (cfg : Settings) (watermark : ℕ) (rows : List Fields) (all : List (ℕ × Fields))
    → dated cfg.py rows ≡ some all
    → newer_than cfg.py watermark rows ≡ some (newer watermark all)
unfolding newer_than
newer_than-dated cfg watermark rows all h = rw h refl

next_watermark-dated :
    (cfg : Settings) (watermark : ℕ) (rows : List Fields) (all : List (ℕ × Fields))
    → dated cfg.py rows ≡ some all
    → next_watermark cfg.py watermark rows ≡ some (newest watermark all)
unfolding next_watermark
next_watermark-dated cfg watermark rows all h = rw h refl

tick-dated :
    (cfg : Settings) (clocks : ℕ → ℕ × ℕ) (rows : List Fields) (r : Reconciler) (f : Forwarder)
    (all : List (ℕ × Fields))
    → dated cfg.py rows ≡ some all
    → tick cfg clocks (some rows) r f ≡ (
        let done = submit_rows cfg clocks 0 (oldest_first (newer r.watermark all)) f in
        returned
          (length (oldest_first (newer r.watermark all)))
          (record {
            watermark = newest r.watermark all;
            ticks = suc r.ticks;
            recovered = r.recovered + done.0;
          })
          done.1)
unfolding tick
tick-dated cfg clocks rows r f all h =
    rw
      (
        newer_than-dated cfg r.watermark rows all h,
        next_watermark-dated cfg r.watermark rows all h,
        tick,
      )
      refl

tick-undated :
    (cfg : Settings) (clocks : ℕ → ℕ × ℕ) (rows : List Fields) (r : Reconciler) (f : Forwarder)
    → dated cfg.py rows ≡ none
    → tick cfg clocks (some rows) r f ≡ raised (record r { ticks = suc r.ticks }) f
unfolding tick newer_than
tick-undated cfg clocks rows r f h = rw (h, tick, newer_than) refl

abbrev state_of : Reconciler → Ended → Reconciler
state_of default (returned n r f) = r
state_of default (raised r f) = default

-- Once a tick with a page has returned, a tick with that page, at any later watermark and whatever
-- came to the forwarder, submits no row, leaves the watermark and the forwarder alone and returns 0;
-- and the watermark never goes back.
pub tick-again :
    (cfg : Settings) (clocks clocks' : ℕ → ℕ × ℕ) (page : Option (List Fields))
    (r r' later : Reconciler) (f f' g : Forwarder) (n : ℕ)
    → tick cfg clocks page r f ≡ returned n r' f'
    → r'.watermark ≤ later.watermark
    → (r.watermark ≤ r'.watermark)
      × (tick cfg clocks' page later g ≡ returned 0 (record later { ticks = suc later.ticks }) g)
unfolding tick oldest_first submit_rows
tick-again cfg clocks clocks' none r r' later f f' g n h le =
    let same : r.watermark ≡ r'.watermark = ap (λ e. (state_of r e).watermark) h in
    (omega (arith, same), refl)
tick-again cfg clocks clocks' (some rows) r r' later f f' g n h le =
    elim (Option-cases (dated cfg.py rows)) [
      | inl bad ↦ absurd (ground (arith, tick-undated cfg clocks rows r f bad, h))
      | inr (all, good) ↦
          let moved : newest r.watermark all ≡ r'.watermark =
            ap (λ e. (state_of r e).watermark)
              (sym (tick-dated cfg clocks rows r f all good) ∙ h) in
          let none_new : later.recovered + 0 ≡ later.recovered = omega arith in
          let below : newest r.watermark all ≤ later.watermark = omega (arith, moved, le) in
          (
            omega (arith, newest-le r.watermark all, moved),
            tick-dated cfg clocks' rows later g all good
                ∙ rw
                    (
                      newer-newest r.watermark later.watermark all below,
                      newest-bound r.watermark later.watermark all below,
                    )
                    (ap
                      (λ c. returned 0 (record later { ticks = suc later.ticks; recovered = c }) g)
                      none_new),
          )
    ]
