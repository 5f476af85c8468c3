-- ===== src/Scheduler/Durable.antt =====
-- What a turn's own changes of its task are worth once the fire is over.
use text.Mathlib.TextPositions.{eq_refl}
use joshua_ai.Base.{
  ℕ, String, true, false, none, some, List, ◌≡◌, ◌≢◌, refl, ap, ◌==◌, String_eq, if◌then◌else◌,
  arith, inr,
}
use joshua_ai.Base.Text.{Text}
use joshua_ai.Delivery.{Delivery, returned, raised}
use joshua_ai.Tasks.{Task, Status, active, processing, is_processing}
use joshua_ai.Tasks.Statuses.{status_of, status_of-fail_task, status_of-reschedule_task}
use joshua_ai.Scheduler.Settles.{tasks-send_reply}
use joshua_ai.Scheduler.{
  Channel, Conversation, replied, crashed, Env, World, done, escaped, is_recurring, target_of,
  settle, send_reply, after_turn, fire, world,
}

-- A recurring task whose turn crashes is active again, whatever the turn did to its row before it
-- crashed: a cancel or a pause by the agent is undone.
pub crash_rearms :
    (env : Env) (t : Task) (now : ℕ) (w : World) (conv : Conversation) (channel : Channel)
    (error : Text) (tasks : List Task) (before : Status)
    → env.conversation t.conversation_id ≡ some conv
    → env.channel (target_of conv) ≡ some channel
    → env.run_turn channel conv t w.tasks ≡ (crashed error, tasks)
    → is_recurring t ≡ true
    → status_of t.id tasks ≡ some before
    → status_of t.id (world (fire env t now w)).tasks ≡ some active
unfolding fire after_turn
crash_rearms env t now w conv channel error tasks before here found turn again row =
    let failed_row = status_of-fail_task t.id t.id error true (env.over_at t) tasks in
    rw (here, found, fire) (rw (turn, after_turn, again) (rw (failed_row, eq_refl t.id, row) refl))

settled_tasks :
    (env : Env) (channel : Channel) (conv : Conversation) (t : Task) (text : Text) (w w' : World)
    → after_turn env channel conv t (replied text) w ≡ done w'
    → w'.tasks ≡ settle env t w.tasks
unfolding after_turn
settled_tasks env channel conv t text w w' e =
    let (d, w1) = send_reply env channel conv text w in
    sent d w1 (tasks-send_reply env channel conv text w) e
  where
    sent :
        (d : Delivery) (w1 : World)
        → w1.tasks ≡ w.tasks
        → (elim d [
          | raised o ↦ escaped o w1
          | returned _ ↦ done (record w1 { tasks = settle env t w1.tasks })
        ])
          ≡ done w'
        → w'.tasks ≡ settle env t w.tasks
    sent (raised o) w1 same e1 = cc
    sent (returned b) w1 same e1 = ground (arith, same)

kept_status : (s : Status) → s ≢ processing → (if is_processing s then active else s) ≡ s
kept_status s h = ground arith

settle_keeps :
    (env : Env) (t : Task) (ts : List Task) (expr : String) (next : ℕ) (given : Status)
    → t.cron_expr ≡ some expr
    → (expr == "") ≡ false
    → env.next_cron expr (env.over_at t) ≡ inr next
    → status_of t.id ts ≡ some given
    → given ≢ processing
    → status_of t.id (settle env t ts) ≡ some given
unfolding settle
settle_keeps env t ts expr next given cron set ok row out =
    rw (cron, set, ok, settle)
      (rw (status_of-reschedule_task t.id t.id next (env.over_at t) none ts, eq_refl t.id, row)
        (ap some (kept_status given out)))

-- A recurring task whose turn replied keeps a status other than `processing` that the turn gave it.
pub reply_keeps_status :
    (env : Env) (t : Task) (now : ℕ) (w w' : World) (conv : Conversation) (channel : Channel)
    (text : Text) (tasks : List Task) (expr : String) (next : ℕ) (given : Status)
    → env.conversation t.conversation_id ≡ some conv
    → env.channel (target_of conv) ≡ some channel
    → env.run_turn channel conv t w.tasks ≡ (replied text, tasks)
    → t.cron_expr ≡ some expr
    → (expr == "") ≡ false
    → env.next_cron expr (env.over_at t) ≡ inr next
    → status_of t.id tasks ≡ some given
    → given ≢ processing
    → fire env t now w ≡ done w'
    → status_of t.id w'.tasks ≡ some given
unfolding fire after_turn
reply_keeps_status env t now w w' conv channel text tasks expr next given here found turn cron set
      ok row out e =
    let replied_done =
      settled_tasks env channel conv t text (record w { tasks = tasks }) w'
        (rw turn at (rw (here, found, fire) at e)) in
    rw replied_done (settle_keeps env t tasks expr next given cron set ok row out)
