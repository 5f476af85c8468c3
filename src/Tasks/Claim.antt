-- ===== src/Tasks/Claim.antt =====
-- `claim_due_tasks` hands out due rows once.
use native.Mathlib.Nat.{le_trans}
use joshua_ai.Base.{
  ℕ, zero, suc, ◌≤◌, String, true, false, none, some, List, [], ◌∷◌, ◌≡◌, refl, elem, String_eq,
  if◌then◌else◌, arith, keep_if, length, take, leb, length-take-le, Bool-cases, inl, inr, All,
  All-keep_if, All-always, All-imp,
}
use joshua_ai.Tasks.{
  Task, active, processing, is_due, update_where, get_task, ids, due, claim_due_tasks,
  insert_by_time, order_by_time,
}
use joshua_ai.Tasks.Later.{Statement, Spares, Claimed, execute_all, execute_all-Claimed}
use joshua_ai.Tasks.Updates.{get_task-update_where}

module _ (P : Task → Type 0) where
  All-insert_by_time : (t : Task) (ts : List Task) → P t → All P ts → All P (insert_by_time t ts)
  unfolding insert_by_time
  All-insert_by_time t [] h hs = (h, tt)
  All-insert_by_time t (u ∷ us) h hs = elim (Bool-cases (leb t.next_run_at u.next_run_at)) [
    | inl first ↦ rw first (h, hs)
    | inr later ↦ rw later (hs.0, All-insert_by_time t us h hs.1)
  ]

  All-order_by_time : (ts : List Task) → All P ts → All P (order_by_time ts)
  unfolding order_by_time
  All-order_by_time [] hs = tt
  All-order_by_time (t ∷ ts) hs =
      All-insert_by_time t (order_by_time ts) hs.0 (All-order_by_time ts hs.1)

  All-take : (n : ℕ) (ts : List Task) → All P ts → All P (take n ts)
  All-take zero ts hs = tt
  All-take (suc n) [] hs = tt
  All-take (suc n) (t ∷ ts) hs = (hs.0, All-take n ts hs.1)

  -- A property of every row that is due holds of every row handed out.
  All-due :
      (now limit : ℕ) (ts : List Task) → All P (keep_if (is_due now) ts) → All P (due now limit ts)
  unfolding due
  All-due now limit ts hs = All-take limit _ (All-order_by_time _ hs)

abbrev pub IsDue : ℕ → Task → Type 0
IsDue now t = (t.status ≡ active) × (t.next_run_at ≤ now)

is_due-IsDue : (now : ℕ) (t : Task) → is_due now t ≡ true → IsDue now t
unfolding is_due
is_due-IsDue now t h = ground arith

due-IsDue : (now limit : ℕ) (ts : List Task) → All (IsDue now) (due now limit ts)
due-IsDue now limit ts = All-due (IsDue now) now limit ts (
    All-keep_if {Q = λ _. Unit {0}} (is_due now) ts (λ t h _. is_due-IsDue now t h)
      (All-always ts (λ _. tt)))

-- Earlier times first.
abbrev pub IsOrdered : List Task → Type 0
IsOrdered [] = Unit
IsOrdered (t ∷ ts) = All (λ u. t.next_run_at ≤ u.next_run_at) ts × IsOrdered ts

insert_by_time-IsOrdered :
    (t : Task) (ts : List Task) → IsOrdered ts → IsOrdered (insert_by_time t ts)
unfolding insert_by_time
insert_by_time-IsOrdered t [] o = (tt, tt)
insert_by_time-IsOrdered t (u ∷ us) o = elim (Bool-cases (leb t.next_run_at u.next_run_at)) [
  | inl first ↦
      let le : t.next_run_at ≤ u.next_run_at = ground arith in
      rw first ((le, All-imp us (λ v h. le_trans le h) o.0), o)
  | inr later ↦ rw later (
    All-insert_by_time (λ v. u.next_run_at ≤ v.next_run_at) t us (ground arith) o.0,
    insert_by_time-IsOrdered t us o.1,
  )
]

order_by_time-IsOrdered : (ts : List Task) → IsOrdered (order_by_time ts)
unfolding order_by_time
order_by_time-IsOrdered [] = tt
order_by_time-IsOrdered (t ∷ ts) =
    insert_by_time-IsOrdered t (order_by_time ts) (order_by_time-IsOrdered ts)

take-IsOrdered : (n : ℕ) (ts : List Task) → IsOrdered ts → IsOrdered (take n ts)
take-IsOrdered zero ts o = tt
take-IsOrdered (suc n) [] o = tt
take-IsOrdered (suc n) (t ∷ ts) o =
    (All-take (λ u. t.next_run_at ≤ u.next_run_at) n ts o.0, take-IsOrdered n ts o.1)

-- What a claim hands out is active and due, in the order of the due times, within the limit; and
-- in the table exactly those rows turn to `processing`.
pub claim_due_tasks_lem :
    (now limit : ℕ) (ts : List Task) (id : String)
    → let (rows, ts') = claim_due_tasks now limit ts in
      All (IsDue now) rows
      × IsOrdered rows
      × (length rows ≤ limit)
      × (get_task id ts' ≡ (elim (get_task id ts) [
        | none ↦ none
        | some t ↦ some (if elem t.id (ids rows) then record t { status = processing } else t)
      ]))
unfolding claim_due_tasks
claim_due_tasks_lem now limit ts id = (
  due-IsDue now limit ts,
  unfold due in take-IsOrdered limit _ (order_by_time-IsOrdered _),
  unfold due in length-take-le limit _,
  get_task-update_where _ _ id ts (λ t. refl),
)

update_where-Claimed :
    (rows ts : List Task)
    → All
        (Claimed rows)
        (update_where (λ t. elem t.id (ids rows)) (λ t. record t { status = processing }) ts)
unfolding update_where
update_where-Claimed rows [] = tt
update_where-Claimed rows (t ∷ ts) = (ground arith, update_where-Claimed rows ts)

-- No claim hands out one of the rows, where none of them is active.
claim-Claimed :
    (rows : List Task) (now limit : ℕ) (ts : List Task)
    → All (Claimed rows) ts
    → All (λ t. elem t.id (ids rows) ≡ false) (claim_due_tasks now limit ts).0
unfolding claim_due_tasks
claim-Claimed rows now limit ts hs =
    All-due (λ t. elem t.id (ids rows) ≡ false) now limit ts
      (All-keep_if {Q = Claimed rows} (is_due now) ts
        (λ t h q. ground (arith, is_due-IsDue now t h)) hs)

-- A claim hands out none of the rows that an earlier one did, whatever statements were executed on
-- the table between the two (other claims, new tasks, changes of a prompt or a time, settled rows),
-- as long as none of them re-arms one of those rows and no start resets the table.
pub claim_due_tasks_once :
    (now limit now' limit' : ℕ) (ts : List Task) (between : List Statement)
    → All (Spares (claim_due_tasks now limit ts).0) between
    → let (rows, ts') = claim_due_tasks now limit ts in
      All
        (λ t. elem t.id (ids rows) ≡ false)
        (claim_due_tasks now' limit' (execute_all between ts')).0
unfolding claim_due_tasks
claim_due_tasks_once now limit now' limit' ts between spared =
    let (rows, ts') = claim_due_tasks now limit ts in
    claim-Claimed rows now' limit' (execute_all between ts')
      (execute_all-Claimed rows between ts' spared (update_where-Claimed rows ts))
