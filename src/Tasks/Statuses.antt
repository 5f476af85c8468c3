-- ===== src/Tasks/Statuses.antt =====
-- The status of one row after each statement of the scheduler.
use text.Mathlib.TextEquality.{eq_iff}
use text.Mathlib.TextPositions.{eq_refl}
use joshua_ai.Base.{
  ℕ, String, Bool, true, false, Option, none, some, List, [], ◌∷◌, ◌≡◌, ◌≢◌, refl, ◌==◌, elem,
  String_eq, if◌then◌else◌, arith, sym, ◌∙◌,
}
use joshua_ai.Base.Text.{Text}
use joshua_ai.Tasks.{
  Task, Status, active, completed, failed, processing, is_processing, ids, due, update_where,
  claim_due_tasks, complete_task, fail_task, reschedule_task, reset_processing,
}

unfoldable pub status_of : String → List Task → Option Status
status_of id [] = none
status_of id (t ∷ ts) = if t.id == id then some t.status else status_of id ts

abbrev pub becomes : Option Status → (Status → Status) → Option Status
becomes none f = none
becomes (some s) f = some (f s)

abbrev rearmed : Status → Status
rearmed s = if is_processing s then active else s

pub status_of-complete_task :
    (id j : String) (at : ℕ) (ts : List Task)
    → status_of j (complete_task id at ts)
      ≡ (if id == j then becomes (status_of j ts) (λ _. completed) else status_of j ts)
unfolding status_of complete_task update_where
status_of-complete_task id j at [] = ground arith
status_of-complete_task id j at (t ∷ ts) =
    ground (arith, eq_iff t.id id, eq_iff t.id j, eq_iff id j, status_of-complete_task id j at ts)

pub status_of-fail_task :
    (id j : String) (error : Text) (again : Bool) (at : ℕ) (ts : List Task)
    → status_of j (fail_task id error again at ts) ≡ (
        if id == j
        then becomes (status_of j ts) (λ _. if again then active else failed)
        else status_of j ts)
unfolding status_of fail_task update_where
status_of-fail_task id j error again at [] = ground arith
status_of-fail_task id j error again at (t ∷ ts) =
    ground (
      arith,
      eq_iff t.id id,
      eq_iff t.id j,
      eq_iff id j,
      status_of-fail_task id j error again at ts,
    )

pub status_of-reschedule_task :
    (id j : String) (next at : ℕ) (error : Option Text) (ts : List Task)
    → status_of j (reschedule_task id next error at ts).1
      ≡ (if id == j then becomes (status_of j ts) rearmed else status_of j ts)
unfolding status_of reschedule_task update_where
status_of-reschedule_task id j next at error [] = ground arith
status_of-reschedule_task id j next at error (t ∷ ts) = ground (
  arith,
  eq_iff t.id id,
  eq_iff t.id j,
  eq_iff id j,
  status_of-reschedule_task id j next at error ts,
)

pub status_of-reset_processing :
    (j : String) (ts : List Task)
    → status_of j (reset_processing ts).1 ≡ becomes (status_of j ts) rearmed
unfolding status_of reset_processing update_where
status_of-reset_processing j [] = refl
status_of-reset_processing j (t ∷ ts) = ground (arith, status_of-reset_processing j ts)

abbrev claimed_update : List String → List Task → List Task
claimed_update rows = update_where (λ t. elem t.id rows) (λ t. record t { status = processing })

status_of-claimed :
    (rows : List String) (j : String) (ts : List Task)
    → status_of j (claimed_update rows ts)
      ≡ (if elem j rows then becomes (status_of j ts) (λ _. processing) else status_of j ts)
unfolding status_of update_where
status_of-claimed rows j [] = ground arith
status_of-claimed rows j (t ∷ ts) = ground (arith, eq_iff t.id j, status_of-claimed rows j ts)

pub status_of-claim_due_tasks :
    (now limit : ℕ) (j : String) (ts : List Task)
    → let (rows, ts') = claim_due_tasks now limit ts in
      status_of j ts'
      ≡ (if elem j (ids rows) then becomes (status_of j ts) (λ _. processing) else status_of j ts)
unfolding claim_due_tasks
status_of-claim_due_tasks now limit j ts = status_of-claimed (ids (due now limit ts)) j ts

-- No row with this id is, or any row with it is, in the state of a claimed task.
abbrev pub IsProcessing : String → List Task → Type 0
IsProcessing id ts = status_of id ts ≡ some processing

-- A change of the table settles a row, and brings no other row into `processing`.
pub record Settles (id : String) (ts ts' : List Task) : Type 0 where
  pub own : ¬ IsProcessing id ts'
  pub others : (j : String) → IsProcessing j ts' → IsProcessing j ts

becomes-Settles :
    (id : String) (ts ts' : List Task) (f : Status → Status)
    → ((s : Status) → f s ≢ processing)
    → ((j : String)
        → status_of j ts' ≡ (if id == j then becomes (status_of j ts) f else status_of j ts))
    → Settles id ts ts'
becomes-Settles id ts ts' f out row = record {
  own = λ h. gone (status_of id ts) (sym (rw (row id, eq_refl id) at h));
  others = λ j h. keep j (id == j) (status_of j ts) (sym (row j) ∙ h);
}
  where
    gone : (o : Option Status) → some processing ≡ becomes o f → ⊥
    gone none e = cc
    gone (some s) e = out s (cc)

    keep :
        (j : String) (b : Bool) (o : Option Status)
        → (if b then becomes o f else o) ≡ some processing
        → o ≡ some processing
    keep j true none e = e
    keep j true (some s) e = absurd (out s (cc))
    keep j false o e = e

rearmed-ne : (s : Status) → rearmed s ≢ processing
rearmed-ne s e = ground arith

pub complete_task-Settles :
    (id : String) (at : ℕ) (ts : List Task) → Settles id ts (complete_task id at ts)
complete_task-Settles id at ts =
    becomes-Settles id ts _ (λ _. completed) (λ s e. cc) (λ j. status_of-complete_task id j at ts)

pub fail_task-Settles :
    (id : String) (error : Text) (again : Bool) (at : ℕ) (ts : List Task)
    → Settles id ts (fail_task id error again at ts)
fail_task-Settles id error again at ts =
    becomes-Settles id ts _ (λ _. if again then active else failed) (λ s e. ground arith)
      (λ j. status_of-fail_task id j error again at ts)

pub reschedule_task-Settles :
    (id : String) (next at : ℕ) (error : Option Text) (ts : List Task)
    → Settles id ts (reschedule_task id next error at ts).1
reschedule_task-Settles id next at error ts =
    becomes-Settles id ts _ rearmed rearmed-ne
      (λ j. status_of-reschedule_task id j next at error ts)
