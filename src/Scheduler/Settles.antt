-- ===== src/Scheduler/Settles.antt =====
-- What a fire leaves in the table: no row that the sweep claimed stays in `processing`.
use joshua_ai.Base.{
  ℕ, String, true, false, none, List, [], ◌∷◌, ◌++◌, ◌≡◌, ◌⊎◌, sym, subst, ◌==◌, elem, String_eq,
  arith, Bool-cases, Option-cases, inl, inr, eq_of_beq,
}
use joshua_ai.Base.Text.{Text, codes}
use joshua_ai.Delivery.{Delivery, returned, raised}
use joshua_ai.Tasks.{Task, ids, claim_due_tasks, fail_task, reschedule_task}
use joshua_ai.Tasks.Statuses.{
  IsProcessing, Settles, complete_task-Settles, fail_task-Settles, reschedule_task-Settles,
  status_of-claim_due_tasks,
}
use joshua_ai.Scheduler.{
  Channel, Conversation, Turn, replied, crashed, Env, World, Step, done, escaped, target_of, settle,
  send_reply, after_turn, fire, fire_all, sweep,
}

settle-Settles : (env : Env) (t : Task) (ts : List Task) → Settles t.id ts (settle env t ts)
unfolding settle
settle-Settles env t ts = elim (Option-cases t.cron_expr) [
  | inl once ↦ rw (once, settle) (complete_task-Settles t.id (env.over_at t) ts)
  | inr (expr, cron) ↦ elim (Bool-cases (expr == "")) [
    | inl blank ↦ rw (cron, blank, settle) (complete_task-Settles t.id (env.over_at t) ts)
    | inr set ↦ rw (cron, set, settle) (armed (env.next_cron expr (env.over_at t)))
  ]
]
  where
    armed :
        (next : Text ⊎ ℕ)
        → Settles t.id ts (elim next [
          | inl error ↦ fail_task t.id (codes "invalid cron: " ++ error) false (env.over_at t) ts
          | inr at ↦ (reschedule_task t.id at none (env.over_at t) ts).1
        ])
    armed (inl error) = fail_task-Settles t.id _ false (env.over_at t) ts
    armed (inr at) = reschedule_task-Settles t.id at (env.over_at t) none ts

-- A fire that ends has settled its row and stirred no other; one that is cut short by an exception
-- has stirred none.
abbrev pub Fired : String → List Task → Step → Type 0
Fired id ts (done w') = Settles id ts w'.tasks
Fired id ts (escaped o w') = (j : String) → IsProcessing j w'.tasks → IsProcessing j ts

pub tasks-send_reply :
    (env : Env) (channel : Channel) (conv : Conversation) (text : Text) (w : World)
    → (send_reply env channel conv text w).1.tasks ≡ w.tasks
unfolding send_reply
tasks-send_reply env channel conv text w = ground arith

after_turn-Fired :
    (env : Env) (channel : Channel) (conv : Conversation) (t : Task) (turn : Turn) (w : World)
    → Fired t.id w.tasks (after_turn env channel conv t turn w)
unfolding after_turn
after_turn-Fired env channel conv t (crashed error) w =
    fail_task-Settles t.id error _ (env.over_at t) w.tasks
after_turn-Fired env channel conv t (replied text) w =
    let (d, w') = send_reply env channel conv text w in
    sent d w' (tasks-send_reply env channel conv text w)
  where
    sent :
        (d : Delivery) (w' : World)
        → w'.tasks ≡ w.tasks
        → Fired t.id w.tasks (elim d [
          | raised o ↦ escaped o w'
          | returned _ ↦ done (record w' { tasks = settle env t w'.tasks })
        ])
    sent (raised o) w' e = λ j h. subst (IsProcessing j) e h
    sent (returned b) w' e =
        subst (λ ts. Settles t.id ts (settle env t w'.tasks)) e (settle-Settles env t w'.tasks)

-- The agent's tools put no row into `processing`.
abbrev pub ToolsKeepOut : Env → Type 0
ToolsKeepOut env =
    (channel : Channel) (conv : Conversation) (t : Task) (ts : List Task) (j : String)
    → IsProcessing j (env.run_turn channel conv t ts).1
    → IsProcessing j ts

Fired-trans :
    (id : String) (ts us : List Task) (s : Step)
    → ((j : String) → IsProcessing j us → IsProcessing j ts)
    → Fired id us s
    → Fired id ts s
Fired-trans id ts us (done w') h f = record { own = f.own; others = λ j p. h j (f.others j p) }
Fired-trans id ts us (escaped o w') h f = λ j p. h j (f j p)

-- When a fire ends its own row is out of `processing`, whatever the turn did, and no row has come
-- into it, if the agent's tools bring none there.
pub fire-Fired :
    (env : Env) (t : Task) (now : ℕ) (w : World)
    → ToolsKeepOut env
    → Fired t.id w.tasks (fire env t now w)
unfolding fire
fire-Fired env t now w tools = elim (Option-cases (env.conversation t.conversation_id)) [
  | inl gone ↦ rw (gone, fire) (complete_task-Settles t.id now w.tasks)
  | inr (conv, here) ↦ elim (Option-cases (env.channel (target_of conv))) [
    | inl gone ↦ rw (here, gone, fire) (complete_task-Settles t.id now w.tasks)
    | inr (channel, found) ↦
        rw (here, found, fire)
          (Fired-trans t.id w.tasks (env.run_turn channel conv t w.tasks).1 _
            (tools channel conv t w.tasks)
            (after_turn-Fired env channel conv t (env.run_turn channel conv t w.tasks).0 _))
  ]
]

-- Every row in `processing` is still to be fired.
abbrev Pending : List String → List Task → Type 0
Pending todo ts = (j : String) → IsProcessing j ts → elem j todo ≡ true

Pending-tail :
    (id : String) (todo : List String) (ts ts' : List Task)
    → Settles id ts ts'
    → Pending (id ∷ todo) ts
    → Pending todo ts'
Pending-tail id todo ts ts' s p j h = elim (Bool-cases (id == j)) [
  | inl own ↦ absurd (s.own (subst (λ k. IsProcessing k ts') (sym (eq_of_beq id j own)) h))
  | inr other ↦ ground (arith, p j (s.others j h), other)
]

fire_all-Pending :
    (env : Env) (rows : List Task) (now : ℕ) (w w' : World) (j : String)
    → ToolsKeepOut env
    → Pending (ids rows) w.tasks
    → fire_all env rows now w ≡ done w'
    → ¬ IsProcessing j w'.tasks
unfolding fire_all
fire_all-Pending env [] now w w' j tools p e h =
    let same : w.tasks ≡ w'.tasks = ground arith in cc (p j (subst (IsProcessing j) (sym same) h))
fire_all-Pending env (t ∷ rows) now w w' j tools p e h =
    next (fire env t now w) (fire-Fired env t now w tools) e
      (λ w1 p1 e1. fire_all-Pending env rows now w1 w' j tools p1 e1)
  where
    next :
        (s : Step)
        → Fired t.id w.tasks s
        → (elim s [ escaped o w1 ↦ escaped o w1 | done w1 ↦ fire_all env rows now w1 ]) ≡ done w'
        → ((w1 : World)
            → Pending (ids rows) w1.tasks
            → fire_all env rows now w1 ≡ done w'
            → ¬ IsProcessing j w'.tasks)
        → ⊥
    next (escaped o w1) f e1 rec = cc
    next (done w1) f e1 rec = rec w1 (Pending-tail t.id (ids rows) w.tasks w1.tasks f p) e1 h

claim-Pending :
    (now limit : ℕ) (ts : List Task)
    → ((j : String) → ¬ IsProcessing j ts)
    → Pending (ids (claim_due_tasks now limit ts).0) (claim_due_tasks now limit ts).1
claim-Pending now limit ts idle j h =
    let rows = ids (claim_due_tasks now limit ts).0 in
    elim (Bool-cases (elem j rows)) [
      | inl claimed ↦ claimed
      | inr left ↦ absurd (idle j (rw (status_of-claim_due_tasks now limit j ts, left) at h))
    ]

-- A sweep that ends leaves no row in `processing`, if there was none before and the agent's tools
-- bring none there: no claimed task is lost, whether its turn replies, crashes, or changes the
-- table.
pub sweep_settles_all :
    (env : Env) (limit now : ℕ) (w w' : World) (j : String)
    → ToolsKeepOut env
    → ((k : String) → ¬ IsProcessing k w.tasks)
    → sweep env limit now w ≡ done w'
    → ¬ IsProcessing j w'.tasks
unfolding sweep
sweep_settles_all env limit now w w' j tools idle e =
    fire_all-Pending env _ now _ w' j tools (claim-Pending now limit w.tasks idle) e
