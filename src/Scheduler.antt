-- ===== src/Scheduler.antt =====
-- core/joshua_core/scheduler.py: the sweep that fires due tasks. Everything a fire reads from the
-- outside is in `Env`; what it changes is in `World`. The framing text of a turn is left out.
pub mod Settles
pub mod Escapes
pub mod Durable
mod Tests
use joshua_ai.Base.{
  ℕ, zero, suc, ◌+◌, String, Bool, true, false, not, ◌&&◌, ◌||◌, Option, none, some, List, [], ◌∷◌,
  ◌++◌, ◌⊎◌, inl, inr, ◌==◌, String_eq, if◌then◌else◌, is_empty,
}
use joshua_ai.Base.Text.{Text, codes}
use joshua_ai.Delivery.{
  Outcome, Script, Delivery, returned, raised, VoiceChannel, deliver, is_ignore,
  voice_delivery_target,
}
use joshua_ai.Tasks.{
  Task, Status, claim_due_tasks, complete_task, fail_task, reschedule_task, reset_processing,
}

pub record Channel : Type 0 where
  pub id : Text
  pub channel_type : String

pub record Conversation : Type 0 where
  pub id : String
  pub channel_id : Text
  pub person_id : Option Text
  pub last_channel_id : Option Text

-- What `manager.run_turn` comes to: the reply, or the text of the exception it raised.
pub data Turn : Type 0 where
  replied : Text → Turn
  crashed : Text → Turn

pub record Env : Type 0 where
  -- `repo.get_conversation`, `repo.get_channel`
  pub conversation : String → Option Conversation
  pub channel : Text → Option Channel
  -- `manager.run_turn`: the turn may change the table, through the agent's scheduling tools.
  pub run_turn : Channel → Conversation → Task → List Task → Turn × List Task
  -- `compute_next_cron` at a time; `inl` for the text of the `ValueError`.
  pub next_cron : String → ℕ → Text ⊎ ℕ
  -- the clock when the turn of a task is over
  pub over_at : Task → ℕ
  pub net : Script
  pub dry_run : Bool
  pub voice : Option VoiceChannel

pub record World : Type 0 where
  pub tasks : List Task
  -- requests made to channels
  pub posts : ℕ
  -- replies handed to the deliverer, oldest first
  pub sent : List (Text × Text)

-- A step of the sweep returns, or lets an exception of the deliverer through.
pub data Step : Type 0 where
  done : World → Step
  escaped : Outcome → World → Step

abbrev pub world : Step → World
world (done w) = w
world (escaped o w) = w

abbrev pub is_recurring : Task → Bool
is_recurring t = elim t.cron_expr [ none ↦ false | some e ↦ not (e == "") ]

-- `conv.last_channel_id or conv.channel_id`
abbrev pub target_of : Conversation → Text
target_of conv = elim conv.last_channel_id [
  | none ↦ conv.channel_id
  | some c ↦ if is_empty c then conv.channel_id else c
]

-- `_settle`
unfoldable pub settle : Env → Task → List Task → List Task
settle env t ts =
    let now = env.over_at t in
    elim t.cron_expr [
      | none ↦ complete_task t.id now ts
      | some expr ↦
          if expr == "" then complete_task t.id now ts else elim (env.next_cron expr now) [
            | inl error ↦ fail_task t.id (codes "invalid cron: " ++ error) false now ts
            | inr next ↦ (reschedule_task t.id next none now ts).1
          ]
    ]

-- The reply of a fired turn goes out, unless the agent chose silence or there is nowhere to send it.
unfoldable pub send_reply : Env → Channel → Conversation → Text → World → Delivery × World
send_reply env channel conv text w =
    if is_empty text || is_ignore text
    then (returned false, w)
    else elim (voice_delivery_target channel.channel_type conv.person_id (target_of conv)
        env.voice) [
          | none ↦ (returned false, w)
          | some target ↦
              let (d, posts) = deliver env.dry_run env.net w.posts in
              (d, record w { posts = posts; sent = w.sent ++ (target, text) ∷ [] })
        ]

unfoldable pub after_turn : Env → Channel → Conversation → Task → Turn → World → Step
after_turn env channel conv t (crashed error) w =
    done (record w { tasks = fail_task t.id error (is_recurring t) (env.over_at t) w.tasks })
after_turn env channel conv t (replied text) w =
    let (d, w') = send_reply env channel conv text w in
    elim d [
      | raised o ↦ escaped o w'
      | returned _ ↦ done (record w' { tasks = settle env t w'.tasks })
    ]

-- `_fire`
unfoldable pub fire : Env → Task → ℕ → World → Step
fire env t now w = elim (env.conversation t.conversation_id) [
  | none ↦ done (record w { tasks = complete_task t.id now w.tasks })
  | some conv ↦ elim (env.channel (target_of conv)) [
    | none ↦ done (record w { tasks = complete_task t.id now w.tasks })
    | some channel ↦
        let (turn, tasks) = env.run_turn channel conv t w.tasks in
        after_turn env channel conv t turn (record w { tasks = tasks })
  ]
]

-- The loop of `_sweep`: an exception leaves the rest of the claimed rows as they are.
unfoldable pub fire_all : Env → List Task → ℕ → World → Step
fire_all env [] now w = done w
fire_all env (t ∷ ts) now w = elim (fire env t now w) [
  | escaped o w' ↦ escaped o w'
  | done w' ↦ fire_all env ts now w'
]

unfoldable pub sweep : Env → ℕ → ℕ → World → Step
sweep env limit now w =
    let (rows, tasks) = claim_due_tasks now limit w.tasks in
    fire_all env rows now (record w { tasks = tasks })

-- `start` re-queues what a crash left behind.
unfoldable pub start : World → World
start w = record w { tasks = (reset_processing w.tasks).1 }
