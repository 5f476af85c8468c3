-- ===== src/Imessage/Reconcile.antt =====
-- The poller of channels/joshua_channels/adapters/imessage/reconcile.py. A page is what the query
-- brought, none where it failed; the watermark is a number of milliseconds.
use joshua_ai.Base.{
  ℕ, suc, ◌+◌, Bool, true, false, Option, some, none, List, [], ◌∷◌, length, ltb, if◌then◌else◌,
}
use mathlib.Core.Option as Options
use joshua_ai.Base.Text.{codes}
use joshua_ai.Imessage.Json.{
  whole, not_a_number, infinite, number, float, text, object, Fields, Python, get, at_least_zero,
}
use joshua_ai.Imessage.Forwarder.{reconcile, Settings, Forwarder, Status, dropped_for, submit}

-- `int(raw)`, none where it raises OverflowError.
unfoldable pub date_created_ms : Python → Fields → Option ℕ
date_created_ms py row = elim (get (codes "dateCreated") row) [
  | number n ↦ some (at_least_zero n)
  | float b (whole n) t ↦ some (at_least_zero n)
  | float b not_a_number t ↦ some 0
  | float b infinite t ↦ none
  | text t ↦ some (elim (py.int_of t) [ none ↦ 0 | some n ↦ at_least_zero n ])
  | _ ↦ some 0
]

-- The rows, each with its date, none where one has a date that raises.
unfoldable pub dated : Python → List Fields → Option (List (ℕ × Fields))
dated py [] = some []
dated py (row ∷ rows) =
    let rest = dated py rows in
    elim (date_created_ms py row) [
      | none ↦ none
      | some date ↦ Options.map (λ more. (date, row) ∷ more) rest
    ]

abbrev pub newer : ℕ → List (ℕ × Fields) → List (ℕ × Fields)
newer watermark [] = []
newer watermark ((date, row) ∷ rows) =
    let rest = newer watermark rows in if ltb watermark date then (date, row) ∷ rest else rest

unfoldable pub newer_than : Python → ℕ → List Fields → Option (List (ℕ × Fields))
newer_than py watermark rows = Options.map (newer watermark) (dated py rows)

abbrev pub newest : ℕ → List (ℕ × Fields) → ℕ
newest watermark [] = watermark
newest watermark ((date, row) ∷ rows) = newest (if ltb watermark date then date else watermark) rows

unfoldable pub next_watermark : Python → ℕ → List Fields → Option ℕ
next_watermark py watermark rows = Options.map (newest watermark) (dated py rows)

-- `sorted(fresh, key=date_created_ms)`: rows of one date stay in their order.
unfoldable pub insert_row : ℕ × Fields → List (ℕ × Fields) → List (ℕ × Fields)
insert_row p [] = p ∷ []
insert_row p (q ∷ qs) = let rest = insert_row p qs in if ltb q.0 p.0 then q ∷ rest else p ∷ q ∷ qs

unfoldable pub oldest_first : List (ℕ × Fields) → List (ℕ × Fields)
oldest_first [] = []
oldest_first (p ∷ ps) = insert_row p (oldest_first ps)

pub record Reconciler : Type 0 where
  pub watermark : ℕ
  pub ticks : ℕ
  pub recovered : ℕ

abbrev pub was_dropped : Status → Bool
was_dropped (dropped_for why) = true
was_dropped _ = false

-- Each row into the pipeline, with the clocks at that time, and how many of them it accepted.
unfoldable pub submit_rows :
    Settings → (ℕ → ℕ × ℕ) → ℕ → List (ℕ × Fields) → Forwarder → ℕ × Forwarder
submit_rows cfg clocks i [] f = (0, f)
submit_rows cfg clocks i ((date, row) ∷ rows) f =
    let now = (clocks i).0 in
    let moment = (clocks i).1 in
    let status = submit cfg now moment reconcile (object row) f in
    let rest = submit_rows cfg clocks (suc i) rows status.1 in
    (if was_dropped status.0 then rest.0 else suc rest.0, rest.1)

-- A tick that returns how many rows it submitted, or lets an error out, which ends the loop.
pub data Ended : Type 0 where
  returned : ℕ → Reconciler → Forwarder → Ended
  raised : Reconciler → Forwarder → Ended

-- `tick`
unfoldable pub tick : Settings → (ℕ → ℕ × ℕ) → Option (List Fields) → Reconciler → Forwarder → Ended
tick cfg clocks page r f =
    let begun = record r { ticks = suc r.ticks } in
    elim page [
      | none ↦ returned 0 begun f
      | some rows ↦ elim (newer_than cfg.py r.watermark rows) [
        | none ↦ raised begun f
        | some new ↦
            let fresh = oldest_first new in
            let done = submit_rows cfg clocks 0 fresh f in
            let counted = record begun { recovered = r.recovered + done.0 } in
            elim (next_watermark cfg.py r.watermark rows) [
              | none ↦ raised counted done.1
              | some watermark ↦
                  returned (length fresh) (record counted { watermark = watermark }) done.1
            ]
      ]
    ]
