-- ===== src/Tasks/Later.antt =====
-- The statements that change the table of tasks while the program runs, in any order, and what a claim
-- leaves for the claims after it.
use joshua_ai.Base.{
  ℕ, String, Bool, true, false, Option, List, [], ◌∷◌, ◌≡◌, elem, String_eq, arith, Bool-cases, inl,
  inr, All, if_cases, sym, eq_of_beq, refl, ◌&&◌, ◌||◌, is_some, ◌==◌, ◌∙◌, ap,
}
use joshua_ai.Base.Text.{Text}
use joshua_ai.Tasks.{
  Task, Status, active, paused, completed, failed, processing, is_active, update_where, ids,
  claim_due_tasks, create_task, reschedule_task, complete_task, fail_task, set_task_status,
  update_task, owned_by,
}

-- A statement on the table, with its arguments. The reset at the start of the program is none.
pub data Statement : Type 0 where
  claim : ℕ → ℕ → Statement
  create : String → String → String → ℕ → Option String → Statement
  reschedule : String → ℕ → Option Text → ℕ → Statement
  complete : String → ℕ → Statement
  fail : String → Text → Bool → ℕ → Statement
  set_status : String → Status → Option String → Statement
  update : String → Option String → Option String → Option ℕ → Option String → Statement

abbrev pub execute : Statement → List Task → List Task
execute (claim now limit) ts = (claim_due_tasks now limit ts).1
execute (create id conversation_id prompt next_run_at cron_expr) ts =
    create_task id conversation_id prompt next_run_at cron_expr ts
execute (reschedule id next_run_at error at) ts = (reschedule_task id next_run_at error at ts).1
execute (complete id at) ts = complete_task id at ts
execute (fail id error reactivate at) ts = fail_task id error reactivate at ts
execute (set_status id status conversation_id) ts = (set_task_status id status conversation_id ts).1
execute (update id prompt cron_expr next_run_at conversation_id) ts =
    (update_task id prompt cron_expr next_run_at conversation_id ts).1

abbrev pub execute_all : List Statement → List Task → List Task
execute_all [] ts = ts
execute_all (s ∷ ss) ts = execute_all ss (execute s ts)

-- The statement re-arms none of the rows: a new task has an id of its own, and what makes a row
-- active (a reschedule, a failure that re-arms, a status set to active) is for another id.
abbrev pub Spares : List Task → Statement → Type 0
Spares rows (create id conversation_id prompt next_run_at cron_expr) = elem id (ids rows) ≡ false
Spares rows (reschedule id next_run_at error at) = elem id (ids rows) ≡ false
Spares rows (fail id error reactivate at) = reactivate ≡ true → elem id (ids rows) ≡ false
Spares rows (set_status id status conversation_id) = status ≡ active → elem id (ids rows) ≡ false
Spares rows (claim now limit) = Unit
Spares rows (complete id at) = Unit
Spares rows (update id prompt cron_expr next_run_at conversation_id) = Unit

-- None of the rows is active.
abbrev pub Claimed : List Task → Task → Type 0
Claimed rows t = elem t.id (ids rows) ≡ true → is_active t.status ≡ false

pub update_where-All :
    (P : Task → Type 0) (p : Task → Bool) (f : Task → Task) (ts : List Task)
    → ((t : Task) → p t ≡ true → P t → P (f t))
    → All P ts
    → All P (update_where p f ts)
unfolding update_where
update_where-All P p f [] step hs = tt
update_where-All P p f (t ∷ ts) step hs = elim (Bool-cases (p t)) [
  | inl here ↦ rw here (step t here hs.0, update_where-All P p f ts step hs.1)
  | inr other ↦ rw other (hs.0, update_where-All P p f ts step hs.1)
]

-- A row with an id that is none of theirs keeps whatever a claim asks of theirs.
other_id :
    (rows : List Task) (t : Task) (id : String) (s : Status)
    → (t.id == id) ≡ true
    → elem id (ids rows) ≡ false
    → elem t.id (ids rows) ≡ true
    → is_active s ≡ false
other_id rows t id s here spared among =
    let same = eq_of_beq t.id id here in
    let both : true ≡ false = sym among ∙ ap (λ u. elem u (ids rows)) same ∙ spared in
    absurd (ground (arith, both))

set_to :
    (rows : List Task) (t : Task) (id : String) (s : Status)
    → (t.id == id) ≡ true
    → (s ≡ active → elem id (ids rows) ≡ false)
    → elem t.id (ids rows) ≡ true
    → is_active s ≡ false
set_to rows t id active here spared among = other_id rows t id active here (spared refl) among
set_to rows t id paused here spared among = refl
set_to rows t id completed here spared among = refl
set_to rows t id failed here spared among = refl
set_to rows t id processing here spared among = refl

left : (a b : Bool) → (a && b) ≡ true → a ≡ true
left a b h = ground arith

execute-Claimed :
    (rows : List Task) (s : Statement) (ts : List Task)
    → Spares rows s
    → All (Claimed rows) ts
    → All (Claimed rows) (execute s ts)
unfolding claim_due_tasks create_task reschedule_task complete_task fail_task set_task_status
    update_task owned_by
execute-Claimed rows (claim now limit) ts spared hs =
    update_where-All (Claimed rows) _ _ ts (λ t _ _ _. refl) hs
execute-Claimed rows (create id conversation_id prompt next_run_at cron_expr) ts spared hs =
    (λ among. ground (arith, spared, among), hs)
execute-Claimed rows (reschedule id next_run_at error at) ts spared hs =
    update_where-All (Claimed rows) _ _ ts
      (λ t here _. other_id rows t id active (left _ _ here) spared) hs
execute-Claimed rows (complete id at) ts spared hs =
    update_where-All (Claimed rows) _ _ ts (λ t _ _ _. refl) hs
execute-Claimed rows (fail id error true at) ts spared hs =
    update_where-All (Claimed rows) _ _ ts
      (λ t here _. other_id rows t id active here (spared refl)) hs
execute-Claimed rows (fail id error false at) ts spared hs =
    update_where-All (Claimed rows) _ _ ts (λ t _ _ _. refl) hs
execute-Claimed rows (set_status id status conversation_id) ts spared hs =
    update_where-All (Claimed rows) _ _ ts
      (λ t here _. set_to rows t id status (left _ _ here) spared) hs
execute-Claimed rows (update id prompt cron_expr next_run_at conversation_id) ts spared hs =
    if_cases {A = Bool × List Task} (λ r. All (Claimed rows) r.1)
      (is_some prompt || is_some cron_expr || is_some next_run_at) _ (false, ts)
      (λ _. update_where-All (Claimed rows) _ _ ts (λ t _ h. h) hs) (λ _. hs)

pub execute_all-Claimed :
    (rows : List Task) (ss : List Statement) (ts : List Task)
    → All (Spares rows) ss
    → All (Claimed rows) ts
    → All (Claimed rows) (execute_all ss ts)
execute_all-Claimed rows [] ts spared hs = hs
execute_all-Claimed rows (s ∷ ss) ts spared hs =
    execute_all-Claimed rows ss (execute s ts) spared.1 (execute-Claimed rows s ts spared.0 hs)
