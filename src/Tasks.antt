-- ===== src/Tasks.antt =====
-- The `tasks` table as core/joshua_core/store/repo.py uses it: a list of rows with distinct ids.
-- Each method is one SQL statement or transaction, so one step here. `at` is the database's clock.
pub mod Claim
pub mod Updates
pub mod Later
pub mod Statuses
use joshua_ai.Base.{
  ℕ, zero, suc, ◌+◌, ◌≤◌, String, Bool, true, false, not, ◌&&◌, ◌||◌, Option, none, some, List, [],
  ◌∷◌, map, ◌==◌, elem, String_eq, if◌then◌else◌, leb, ltb, take, keep_if, length, is_some, ◌≡◌,
  is_empty,
}
use joshua_ai.Base.Text.{Text}

pub data Status : Type 0 where
  active paused completed failed processing : Status

pub record Task : Type 0 where
  pub id : String
  pub conversation_id : String
  pub prompt : String
  pub next_run_at : ℕ
  pub cron_expr : Option String
  pub status : Status
  pub last_run_at : Option ℕ
  pub last_error : Option Text

abbrev pub is_active : Status → Bool
is_active active = true
is_active _ = false

abbrev pub is_processing : Status → Bool
is_processing processing = true
is_processing _ = false

-- `UPDATE tasks SET … WHERE …`: the rows after it, and how many it touched.
unfoldable pub update_where : (Task → Bool) → (Task → Task) → List Task → List Task
update_where p f [] = []
update_where p f (t ∷ ts) = (if p t then f t else t) ∷ update_where p f ts

unfoldable pub rowcount : (Task → Bool) → List Task → ℕ
rowcount p ts = length (keep_if p ts)

-- `ORDER BY next_run_at`; equal times keep the order of the table.
unfoldable pub insert_by_time : Task → List Task → List Task
insert_by_time t [] = t ∷ []
insert_by_time t (u ∷ us) =
    if leb t.next_run_at u.next_run_at then t ∷ u ∷ us else u ∷ insert_by_time t us

unfoldable pub order_by_time : List Task → List Task
order_by_time [] = []
order_by_time (t ∷ ts) = insert_by_time t (order_by_time ts)

unfoldable pub is_due : ℕ → Task → Bool
is_due now t = is_active t.status && leb t.next_run_at now

abbrev pub ids : List Task → List String
ids [] = []
ids (t ∷ ts) = t.id ∷ ids ts

-- The rows of the `SELECT … LIMIT …` of `claim_due_tasks`.
unfoldable pub due : ℕ → ℕ → List Task → List Task
due now limit ts = take limit (order_by_time (keep_if (is_due now) ts))

unfoldable pub claim_due_tasks : ℕ → ℕ → List Task → List Task × List Task
claim_due_tasks now limit ts =
    let rows = due now limit ts in
    (rows, update_where (λ t. elem t.id (ids rows)) (λ t. record t { status = processing }) ts)

unfoldable pub create_task : String → String → String → ℕ → Option String → List Task → List Task
create_task id conversation_id prompt next_run_at cron_expr ts =
    record {
      id = id;
      conversation_id = conversation_id;
      prompt = prompt;
      next_run_at = next_run_at;
      cron_expr = cron_expr;
      status = active;
      last_run_at = none;
      last_error = none;
    }
    ∷ ts

unfoldable pub get_task : String → List Task → Option Task
get_task id [] = none
get_task id (t ∷ ts) = if t.id == id then some t else get_task id ts

-- `error[:2000] if error else None`
abbrev pub clip : Option Text → Option Text
clip none = none
clip (some e) = if is_empty e then none else some (take 2000 e)

-- Re-armed only while it is still `processing`. The flag says whether a row was.
unfoldable pub reschedule_task : String → ℕ → Option Text → ℕ → List Task → Bool × List Task
reschedule_task id next_run_at error at ts =
    let here = λ (t : Task). t.id == id && is_processing t.status in
    (
      ltb 0 (rowcount here ts),
      update_where here
          (λ t. record t {
            status = active;
            next_run_at = next_run_at;
            last_run_at = some at;
            last_error = clip error;
          })
          ts,
    )

unfoldable pub reset_processing : List Task → ℕ × List Task
reset_processing ts =
    let here = λ (t : Task). is_processing t.status in
    (rowcount here ts, update_where here (λ t. record t { status = active }) ts)

unfoldable pub complete_task : String → ℕ → List Task → List Task
complete_task id at ts =
    update_where (λ t. t.id == id) (λ t. record t { status = completed; last_run_at = some at }) ts

unfoldable pub fail_task : String → Text → Bool → ℕ → List Task → List Task
fail_task id error reactivate at ts =
    update_where (λ t. t.id == id)
      (λ t. record t {
        status = if reactivate then active else failed;
        last_run_at = some at;
        last_error = some (take 2000 error);
      })
      ts

-- The tools pass their conversation; `none` stands for no such clause.
unfoldable pub owned_by : String → Option String → Task → Bool
owned_by id conversation_id t =
    t.id == id && (elim conversation_id [ none ↦ true | some c ↦ t.conversation_id == c ])

unfoldable pub set_task_status : String → Status → Option String → List Task → Bool × List Task
set_task_status id status conversation_id ts =
    let here = owned_by id conversation_id in
    (ltb 0 (rowcount here ts), update_where here (λ t. record t { status = status }) ts)

abbrev pub or_keep {ℓ} : {A : Type ℓ} → Option A → A → A
or_keep none a = a
or_keep (some b) a = b

-- An empty `cron_expr` clears the schedule.
abbrev pub or_null : String → Option String
or_null s = if s == "" then none else some s

unfoldable pub update_task :
    String → Option String → Option String → Option ℕ → Option String → List Task → Bool × List Task
update_task id prompt cron_expr next_run_at conversation_id ts =
    let here = owned_by id conversation_id in
    if is_some prompt || is_some cron_expr || is_some next_run_at
    then (
      ltb 0 (rowcount here ts),
      update_where here
          (λ t. record t {
            prompt = or_keep prompt t.prompt;
            cron_expr = elim cron_expr [ none ↦ t.cron_expr | some e ↦ or_null e ];
            next_run_at = or_keep next_run_at t.next_run_at;
          })
          ts,
    )
    else (false, ts)

-- Ids are the table's primary key.
abbrev pub DistinctIds : List Task → Type 0
DistinctIds [] = Unit
DistinctIds (t ∷ ts) = (elem t.id (ids ts) ≡ false) × DistinctIds ts
