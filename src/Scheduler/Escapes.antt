-- ===== src/Scheduler/Escapes.antt =====
-- What ends a sweep early, and what a turn's own changes of the table are worth.
use joshua_ai.Base.{
  ℕ, suc, false, some, List, [], ◌∷◌, ◌++◌, ◌≡◌, ◌≢◌, refl, subst, sym, ◌==◌, elem, String_eq,
  arith, Option-cases, inl, inr, All, is_empty,
}
use joshua_ai.Base.Text.{Text}
use joshua_ai.Delivery.{
  Delivery, returned, raised, Outcome, other_error, deliver, deliver_from, request, attempts_from,
  verdict, is_retryable, is_ignore, voice_delivery_target,
}
use joshua_ai.Tasks.{Task, ids, claim_due_tasks}
use joshua_ai.Tasks.Later.{Statement, Spares, execute_all}
use joshua_ai.Tasks.Claim.{claim_due_tasks_once}
use joshua_ai.Scheduler.{
  Channel, Conversation, Turn, replied, crashed, Env, World, Step, done, escaped, target_of, settle,
  send_reply, after_turn, fire, fire_all, sweep, world,
}

-- No delivery lets an exception through.
abbrev pub NeverRaises : Env → Type 0
NeverRaises env = (n : ℕ) (o : Outcome) → (deliver env.dry_run env.net n).0 ≢ raised o

abbrev pub IsDone : Step → Type 0
IsDone s = (w : World) × (s ≡ done w)

send_reply-quiet :
    (env : Env) (channel : Channel) (conv : Conversation) (text : Text) (w : World) (o : Outcome)
    → NeverRaises env
    → (send_reply env channel conv text w).0 ≢ raised o
unfolding send_reply
send_reply-quiet env channel conv text w o quiet h = ground (arith, quiet w.posts o)

after_turn-IsDone :
    (env : Env) (channel : Channel) (conv : Conversation) (t : Task) (turn : Turn) (w : World)
    → NeverRaises env
    → IsDone (after_turn env channel conv t turn w)
unfolding after_turn
after_turn-IsDone env channel conv t (crashed error) w quiet = (_, refl)
after_turn-IsDone env channel conv t (replied text) w quiet =
    let (d, w') = send_reply env channel conv text w in
    sent d w' (λ o. send_reply-quiet env channel conv text w o quiet)
  where
    sent :
        (d : Delivery) (w' : World)
        → ((o : Outcome) → d ≢ raised o)
        → IsDone (elim d [
          | raised o ↦ escaped o w'
          | returned _ ↦ done (record w' { tasks = settle env t w'.tasks })
        ])
    sent (raised o) w' h = absurd (h o refl)
    sent (returned b) w' h = (_, refl)

fire-IsDone :
    (env : Env) (t : Task) (now : ℕ) (w : World) → NeverRaises env → IsDone (fire env t now w)
unfolding fire
fire-IsDone env t now w quiet = elim (Option-cases (env.conversation t.conversation_id)) [
  | inl gone ↦ rw (gone, fire) (_, refl)
  | inr (conv, here) ↦ elim (Option-cases (env.channel (target_of conv))) [
    | inl gone ↦ rw (here, gone, fire) (_, refl)
    | inr (channel, found) ↦
        rw (here, found, fire)
          (after_turn-IsDone env channel conv t (env.run_turn channel conv t w.tasks).0 _ quiet)
  ]
]

-- Each of the tasks is fired, in their order, and each fire returns.
pub data Fires (env : Env) (now : ℕ) : List Task → World → World → Type 0 where
  no_more : (w : World) → Fires env now [] w w
  fired :
      (t : Task) (rows : List Task) (w w1 w2 : World)
      → fire env t now w ≡ done w1
      → Fires env now rows w1 w2
      → Fires env now (t ∷ rows) w w2

fire_all-Fires :
    (env : Env) (rows : List Task) (now : ℕ) (w : World)
    → NeverRaises env
    → (w' : World) × (fire_all env rows now w ≡ done w') × Fires env now rows w w'
unfolding fire_all
fire_all-Fires env [] now w quiet = (w, refl, no_more w)
fire_all-Fires env (t ∷ rows) now w quiet =
    let (w1, e) = fire-IsDone env t now w quiet in
    let (w2, rest, fires) = fire_all-Fires env rows now w1 quiet in
    (w2, rw (e, fire_all) rest, fired t rows w w1 w2 e fires)

-- A sweep ends, and fires every task that it claimed, one after another in the order of the claim,
-- however the turns end, as long as the deliverer lets no exception through.
pub sweep_ends :
    (env : Env) (limit now : ℕ) (w : World)
    → NeverRaises env
    → let (rows, tasks) = claim_due_tasks now limit w.tasks in
      (w' : World) × (sweep env limit now w ≡ done w')
      × Fires env now rows (record w { tasks = tasks }) w'
unfolding sweep
sweep_ends env limit now w quiet =
    let (rows, tasks) = claim_due_tasks now limit w.tasks in
    fire_all-Fires env rows now (record w { tasks = tasks }) quiet

-- What a fire of `t` needs to reach the deliverer: a text to say and a channel, other than a voice
-- channel, to say it on. The turn changes no row.
pub record Speaks (env : Env) (t : Task) (ts : List Task) : Type 0 where
  pub conv : Conversation
  pub channel : Channel
  pub text : Text
  pub has_conversation : env.conversation t.conversation_id ≡ some conv
  pub has_channel : env.channel (target_of conv) ≡ some channel
  pub not_voice : (channel.channel_type == "voice") ≡ false
  pub says : env.run_turn channel conv t ts ≡ (replied text, ts)
  pub not_empty : is_empty text ≡ false
  pub not_ignored : is_ignore text ≡ false

deliver_late :
    (env : Env) (n : ℕ)
    → env.dry_run ≡ false
    → env.net n ≡ other_error
    → deliver env.dry_run env.net n ≡ (raised other_error, suc n)
unfolding deliver deliver_from request attempts_from verdict is_retryable
deliver_late env n live late = ground arith

-- The reply was handed over, and no row has changed.
abbrev handed : Conversation → Text → World → World
handed conv text w = record w { posts = suc w.posts; sent = w.sent ++ (target_of conv, text) ∷ [] }

fire_escapes :
    (env : Env) (t : Task) (now : ℕ) (w : World)
    → (s : Speaks env t w.tasks) → env.dry_run ≡ false
    → env.net w.posts ≡ other_error
    → fire env t now w ≡ escaped other_error (handed s.conv s.text w)
unfolding fire after_turn send_reply voice_delivery_target
fire_escapes env t now w s live late = ground (
  arith,
  s.has_conversation,
  s.has_channel,
  s.not_voice,
  s.says,
  s.not_empty,
  s.not_ignored,
  deliver_late env w.posts live late,
)

-- When channels accepts the connection and answers too late, the exception of the first reply ends
-- the sweep: the table is left as the claim made it, and no later claim hands out any of the tasks
-- claimed with it, those that were never fired among them, whatever statements are executed on the
-- table in the meantime, as long as none re-arms one of these rows and no start resets the table.
-- The turn of the first task changes no row and answers with a text for a channel other than a
-- voice channel, and the scheduler is not on a dry run.
pub late_reply_strands :
    (env : Env) (limit now limit' now' : ℕ) (w : World) (t : Task) (rest : List Task)
    → (claim_due_tasks now limit w.tasks).0 ≡ t ∷ rest
    → Speaks env t (claim_due_tasks now limit w.tasks).1
    → env.dry_run ≡ false
    → env.net w.posts ≡ other_error
    → (later : List Statement) → All (Spares (t ∷ rest)) later
    → let after = world (sweep env limit now w) in
      (after.tasks ≡ (claim_due_tasks now limit w.tasks).1)
      × All
          (λ u. elem u.id (ids (t ∷ rest)) ≡ false)
          (claim_due_tasks now' limit' (execute_all later after.tasks)).0
unfolding sweep fire_all
late_reply_strands env limit now limit' now' w t rest claimed s live late later spared =
    let w1 = record w { tasks = (claim_due_tasks now limit w.tasks).1 } in
    let e = fire_escapes env t now w1 s live late in
    rw (claimed, fire_all, e)
      (
        refl,
        subst
            (λ rows.
              All (λ u. elem u.id (ids rows) ≡ false)
                (claim_due_tasks now' limit' (execute_all later w1.tasks)).0)
            claimed
            (claim_due_tasks_once now limit now' limit' w.tasks later
              (subst (λ rows. All (Spares rows) later) (sym claimed) spared)),
      )
