-- ===== src/Scheduler/Tests.antt =====
-- The scheduler on a small table, and each theorem at an input.
use joshua_ai.Base.{
  ℕ, ◌+◌, ◌≤◌, String, false, Option, none, some, List, [], ◌∷◌, ◌≡◌, ◌⊎◌, refl, elem, String_eq,
  arith, inl, inr, All, length,
}
use joshua_ai.Base.Text.{Text, codes}
use joshua_ai.Delivery.{
  Outcome, status, other_error, deliver, deliver_from, request, attempts_from, verdict,
  is_retryable, is_ignore, voice_delivery_target,
}
use joshua_ai.Tasks.{
  Task, active, completed, ids, is_due, due, insert_by_time, order_by_time, update_where,
  claim_due_tasks, complete_task, fail_task, reschedule_task, set_task_status, owned_by, rowcount,
  get_task,
}
use joshua_ai.Tasks.Claim.{claim_due_tasks_lem, claim_due_tasks_once}
use joshua_ai.Tasks.Later.{Statement, create, claim, reschedule, Spares, execute_all}
use joshua_ai.Tasks.Statuses.{status_of, IsProcessing}
use joshua_ai.Scheduler.{
  Channel, Conversation, Turn, replied, crashed, done, Env, World, settle, send_reply, after_turn,
  fire, fire_all, sweep, world,
}
use joshua_ai.Scheduler.Settles.{ToolsKeepOut, sweep_settles_all}
use joshua_ai.Scheduler.Escapes.{NeverRaises, Fires, Speaks, sweep_ends, late_reply_strands}
use joshua_ai.Scheduler.Durable.{crash_rearms}

program : Unit {0}
unfolding is_due due insert_by_time order_by_time update_where claim_due_tasks complete_task
    fail_task reschedule_task set_task_status owned_by rowcount get_task status_of settle send_reply
    after_turn fire fire_all sweep is_retryable attempts_from request verdict deliver_from deliver
    is_ignore voice_delivery_target
program = tt

abbrev task : String → ℕ → Option String → Task
task id at cron = record {
  id = id;
  conversation_id = "c";
  prompt = "p";
  next_run_at = at;
  cron_expr = cron;
  status = active;
  last_run_at = none;
  last_error = none;
}

abbrev table : List Task
table = task "b" 20 none ∷ task "a" 10 (some "0 9 * * *") ∷ task "later" 99 none ∷ []

abbrev chat : Channel
chat = record { id = codes "telegram:1"; channel_type = "telegram" }

abbrev thread : Conversation
thread = record {
  id = "c";
  channel_id = codes "telegram:1";
  person_id = some (codes "alex");
  last_channel_id = none;
}

-- An environment whose turns do as given.
abbrev env_with : (Task → List Task → Turn × List Task) → Outcome → Env
env_with turn answer = record {
  conversation = λ _. some thread;
  channel = λ _. some chat;
  run_turn = λ _ _ t ts. turn t ts;
  next_cron = λ _ now. inr (now + 1440);
  over_at = λ _. 31;
  net = λ _. answer;
  dry_run = false;
  voice = none;
}

abbrev says_hi : Task → List Task → Turn × List Task
says_hi t ts = (replied (codes "hi"), ts)

abbrev cancels : Text ⊎ Text → Task → List Task → Turn × List Task
cancels (inl error) t ts = (crashed error, (set_task_status t.id completed none ts).1)
cancels (inr text) t ts = (replied text, (set_task_status t.id completed none ts).1)

abbrev calm : Env
calm = env_with says_hi (status 200)

abbrev late : Env
late = env_with says_hi other_error

abbrev start : World
start = record { tasks = table; posts = 0; sent = [] }

claims_in_order : ids (claim_due_tasks 30 25 table).0 ≡ "a" ∷ "b" ∷ []
unfolding program
claims_in_order = refl

sweep_rearms : status_of "a" (world (sweep calm 25 30 start)).tasks ≡ some active
unfolding program
sweep_rearms = refl

sweep_completes : status_of "b" (world (sweep calm 25 30 start)).tasks ≡ some completed
unfolding program
sweep_completes = refl

calm-NeverRaises : NeverRaises calm
unfolding program
calm-NeverRaises n o h = cc

calm-ToolsKeepOut : ToolsKeepOut calm
calm-ToolsKeepOut channel conv t ts j h = h

start_idle : (k : String) → ¬ IsProcessing k table
unfolding status_of
start_idle k h = ground arith

abbrev meanwhile : List Statement
meanwhile = create "z" "c1" "Say hello." 50 none ∷ claim 60 25 ∷ reschedule "z" 90 none 61 ∷ []

claim_due_tasks_lem_example : length (claim_due_tasks 30 25 table).0 ≤ 25
claim_due_tasks_lem_example = (claim_due_tasks_lem 30 25 table "a").2

spared : All (Spares (claim_due_tasks 30 25 table).0) meanwhile
unfolding program
spared = (refl, (tt, (refl, tt)))

claim_due_tasks_once_example :
    All
      (λ t. elem t.id ("a" ∷ "b" ∷ []) ≡ false)
      (claim_due_tasks 40 25 (execute_all meanwhile (claim_due_tasks 30 25 table).1)).0
unfolding program
claim_due_tasks_once_example = claim_due_tasks_once 30 25 40 25 table meanwhile spared

sweep_ends_example :
    let (rows, tasks) = claim_due_tasks 30 25 start.tasks in
    (w' : World) × (sweep calm 25 30 start ≡ done w')
    × Fires calm 30 rows (record start { tasks = tasks }) w'
sweep_ends_example = sweep_ends calm 25 30 start calm-NeverRaises

sweep_settles_all_example : ¬ IsProcessing "a" (world (sweep calm 25 30 start)).tasks
unfolding program
sweep_settles_all_example =
    sweep_settles_all calm 25 30 start (world (sweep calm 25 30 start)) "a" calm-ToolsKeepOut
      start_idle refl

late-Speaks : Speaks late (task "a" 10 (some "0 9 * * *")) (claim_due_tasks 30 25 table).1
unfolding program
late-Speaks = record {
  conv = thread;
  channel = chat;
  text = codes "hi";
  has_conversation = refl;
  has_channel = refl;
  not_voice = refl;
  says = refl;
  not_empty = refl;
  not_ignored = refl;
}

late_reply_strands_example :
    ((world (sweep late 25 30 start)).tasks ≡ (claim_due_tasks 30 25 table).1)
    × All
        (λ u. elem u.id ("a" ∷ "b" ∷ []) ≡ false)
        (claim_due_tasks 99 25 (execute_all meanwhile (world (sweep late 25 30 start)).tasks)).0
unfolding program
late_reply_strands_example =
    late_reply_strands late 25 30 25 99 start (task "a" 10 (some "0 9 * * *"))
      (task "b" 20 none ∷ []) refl late-Speaks refl refl meanwhile spared

abbrev crashing : Env
crashing = env_with (cancels (inl (codes "boom"))) (status 200)

abbrev cancelling : Env
cancelling = env_with (cancels (inr (codes "done"))) (status 200)

crash_rearms_example :
    status_of "a" (world (fire crashing (task "a" 10 (some "0 9 * * *")) 30 start)).tasks
    ≡ some active
unfolding program
crash_rearms_example =
    crash_rearms crashing (task "a" 10 (some "0 9 * * *")) 30 start thread chat (codes "boom")
      (set_task_status "a" completed none table).1 completed refl refl refl refl refl
