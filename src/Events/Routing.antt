-- ===== src/Events/Routing.antt =====
-- Where an event goes: `handle` of core/joshua_core/events.py.
use joshua_ai.Base.{true, false, some, [], ◌∷◌, ◌++◌, ℕ_eq, String_eq, Option_eq, is_empty, ◌≡◌}
use joshua_ai.Base.Text.{Text}
use joshua_ai.Turns.{Channel, Conversation, Store}
use joshua_ai.Turns.Rows.{RowOf}
use joshua_ai.Events.{
  Event, Env, World, Job, ResolvedChannel, Answer, delivered_verbatim, accepted, ensure_channel,
  owner_of,
}
use joshua_ai.Events.Skills.{Skill, get_skill}
use joshua_ai.Events.Addresses.{Addressed}

-- Where the channel of an event comes from: the address of the event, or the destination of the skill
-- that its type names.
abbrev pub From : Env → Event → Store → Channel → Type 0
From env event st c = elim (is_empty event.event_type) [
  | true ↦ Addressed st event.turn.channel c
  | false ↦
      (skill : Skill) × (get_skill env.read_text event.event_type ≡ some skill)
      × ((resolved : ResolvedChannel) × (env.resolve skill.destination ≡ some resolved)
          × (c ≡ (ensure_channel resolved st).0))
]

-- What an answer says of the world before and after.
abbrev pub Effect : (Channel → Type 0) → Text → World → Answer → World → Type 0
Effect Source said w accepted w' =
    (j : Job) × Source j.channel
    × RowOf j.channel.id (owner_of j.channel) j.conversation
    × (w'.jobs ≡ w.jobs ++ j ∷ [])
    × (w'.transcript ≡ w.transcript)
Effect Source said w delivered_verbatim w' =
    (c : Channel) × (v : Conversation) × Source c
    × RowOf c.id (owner_of c) v
    × (w'.transcript ≡ w.transcript ++ (v.id, said) ∷ [])
    × (w'.jobs ≡ w.jobs)
Effect Source said w _ w' = w' ≡ w

abbrev Good : (Channel → Type 0) → Text → World → Answer × World → Type 0
Good Source said w r = Effect Source said w r.0 r.1
