-- ===== src/Events.antt =====
-- The event router: core/joshua_core/events.py, with `resolve_channel` and `upsert_channel` of
-- core/joshua_core/store/repo.py. The turn, the channels' answer to a name and the files of the
-- skills are parameters; the background tasks are a list of jobs.
pub mod Skills
pub mod Addresses
pub mod Routing
pub mod Kept
pub mod Orphan
mod Tests
use Prim.Native.Char.{Char, code}
use joshua_ai.Base.{
  ℕ, zero, suc, ◌+◌, String, Bool, true, false, not, ◌&&◌, ◌||◌, Option, some, none, List, [], ◌∷◌,
  ◌++◌, ◌==◌, ℕ_eq, String_eq, Option_eq, is_empty, keep_if, if◌then◌else◌,
}
use joshua_ai.Base.Dict
use joshua_ai.Base.Text.{Text, codes, strip}
use joshua_ai.Delivery.{
  Delivery, returned, Script, VoiceChannel, deliver, is_ignore, voice_delivery_target,
}
use joshua_ai.Turns.{
  TurnEvent, Channel, Conversation, SessionMode, per_person, shared, Store, ChatKind, dm, group,
  get_or_create_conversation,
}
use joshua_ai.Events.Skills.{Skill, get_skill, append_event_payload}

-- `ref.split(":")` on an id.
abbrev pub with_char : Char → List String → List String
with_char c [] = (String.◌∷◌ c String.[]) ∷ []
with_char c (w ∷ ws) = (String.◌∷◌ c w) ∷ ws

unfoldable pub split_ref : String → List String
split_ref String.[] = String.[] ∷ []
split_ref (String.◌∷◌ c s) =
    let rest = split_ref s in if code c == b':' then String.[] ∷ rest else with_char c rest

-- `channel_id.split(":", 1)[0]`
unfoldable pub type_of : String → String
unfolding split_ref
type_of channel_id = elim (split_ref channel_id) [ [] ↦ "" | w ∷ ws ↦ w ]

-- An event: its turn, the fields of an event and the attachments' paths. `event_type` is empty where
-- it is missing, `payload` is the JSON of a payload that is not empty.
pub record Event : Type 0 where
  pub turn : TurnEvent
  pub event_type : Text
  pub payload : Option Text
  pub verbatim : Bool
  pub attachments : List Text

-- What channels answers for a name.
pub record ResolvedChannel : Type 0 where
  pub channel_id : String
  pub chat_kind : ChatKind

-- A task in the background: the arguments of `_run_and_deliver`.
pub record Job : Type 0 where
  pub channel : Channel
  pub conversation : Conversation
  pub text : Text
  pub framing : Text
  pub target : Text
  pub attachments : List Text

abbrev pub skill_framing : Text
skill_framing =
    codes
      "This is an automated skill firing now — not a live message from a person. Follow the instruction below and use the event data with it. Produce only the message that should reach the destination on this channel. If nothing needs to be said, reply with exactly `[IGNORE]`."

abbrev pub inject_fallback : Text
inject_fallback =
    codes
      "A webhook event fired and is described below. An event is not a person and not a live message — no one is waiting on a reply. If it needs a message to someone, phrase it the way it should reach them on this channel. If it needs quiet work, do it and stay silent. If nothing needs to be said, reply with exactly `[IGNORE]`."

pub record Env : Type 0 where
  -- a file of the skills' directory, none where it cannot be read
  pub read_text : Text → Option Text
  pub resolve : Text → Option ResolvedChannel
  -- the text of builtin/event.md, none where it cannot be read
  pub event_file : Option Text
  -- the order of ids in the database
  pub before : String → String → Bool
  -- the text of a turn, none where it raises
  pub run_turn : Job → Option Text
  pub voice : Option VoiceChannel
  pub dry_run : Bool
  pub net : Script

-- `_inject_framing`
unfoldable pub inject_framing : Env → Text
inject_framing env = elim env.event_file [ none ↦ inject_fallback | some text ↦ strip text ]

pub record World : Type 0 where
  pub store : Store
  -- rows of the transcript: the conversation and the content
  pub transcript : List (ℕ × Text)
  pub jobs : List Job

-- `SELECT … ORDER BY id`, of which the callers take the first.
unfoldable pub first_by : (String → String → Bool) → List Channel → Option Channel
first_by before [] = none
first_by before (c ∷ cs) = elim (first_by before cs) [
  | none ↦ some c
  | some d ↦ some (if before d.id c.id then d else c)
]

abbrev pub is_of : String → SessionMode → Channel → Bool
is_of channel_type mode c = c.channel_type == channel_type && elim mode [
  | shared ↦ elim c.session_mode [ shared ↦ true | per_person ↦ false ]
  | per_person ↦ elim c.session_mode [ shared ↦ false | per_person ↦ true ]
]

unfoldable pub find_channels : (Channel → Bool) → Store → List Channel
find_channels test st = keep_if test (Dict.values st.channels)

-- The logical forms of `resolve_channel`.
unfoldable pub resolve_logical : Env → List String → Store → Option Channel
resolve_logical env (channel_type ∷ kind ∷ []) st =
    if kind == "group"
    then first_by env.before (find_channels (is_of channel_type shared) st)
    else none
resolve_logical env (channel_type ∷ kind ∷ person ∷ []) st =
    if kind == "dm"
    then first_by env.before (
        find_channels (λ c. is_of channel_type per_person c && c.default_person_id == some person)
          st)
    else none
resolve_logical env _ st = none

unfoldable pub resolve_channel : Env → String → Store → Option Channel
resolve_channel env ref st = elim (Dict.get ref st.channels) [
  | some c ↦ some c
  | none ↦ resolve_logical env (split_ref ref) st
]

-- `_ensure_channel`: the row of a resolved destination, written where there is none.
abbrev pub channel_row : ResolvedChannel → Channel
channel_row resolved = record {
  id = resolved.channel_id;
  channel_type = type_of resolved.channel_id;
  display_name = none;
  default_person_id = none;
  session_mode = elim resolved.chat_kind [ group ↦ shared | dm ↦ per_person ];
}

unfoldable pub ensure_channel : ResolvedChannel → Store → Channel × Store
ensure_channel resolved st = elim (Dict.get resolved.channel_id st.channels) [
  | some c ↦ (c, st)
  | none ↦
      let c = channel_row resolved in
      (c, record st { channels = Dict.put resolved.channel_id c st.channels })
]

-- The person of an event's conversation.
abbrev pub owner_of : Channel → Option String
owner_of c = elim c.session_mode [ shared ↦ none | per_person ↦ c.default_person_id ]

-- The answers, each with its status.
pub data Answer : Type 0 where
  ignored unresolved_destination unknown_channel delivered_verbatim accepted : Answer

abbrev pub status_of : Answer → ℕ
status_of accepted = 202
status_of _ = 200

-- A turn in the conversation of the channel, started in the background.
unfoldable pub spawn : Channel → Text → Text → Text → Event → Store → World → World
spawn channel text framing target event st w =
    let v = get_or_create_conversation channel.id (owner_of channel) st in
    record w {
      store = v.1;
      jobs =
          w.jobs
          ++ record {
            channel = channel;
            conversation = v.0;
            text = text;
            framing = framing;
            target = target;
            attachments = event.attachments;
          }
            ∷ [];
    }

-- `skill.framing or SKILL_FRAMING`
abbrev pub framing_of : Env → Skill → Text
framing_of env skill = elim skill.framing [
  | none ↦ skill_framing
  | some f ↦ if is_empty f then skill_framing else f
]

-- `_named`
unfoldable pub named : Env → Event → World → Answer × World
named env event w = elim (get_skill env.read_text event.event_type) [
  | none ↦ (ignored, w)
  | some skill ↦ elim (env.resolve skill.destination) [
    | none ↦ (unresolved_destination, w)
    | some resolved ↦
        let c = ensure_channel resolved w.store in
        let prompt = append_event_payload skill.prompt event.payload in
        (accepted, spawn c.0 prompt (framing_of env skill) skill.destination event c.1 w)
  ]
]

unfoldable pub add_transcript : Channel → Text → World → World
add_transcript channel text w =
    let v = get_or_create_conversation channel.id (owner_of channel) w.store in
    record w { store = v.1; transcript = w.transcript ++ (v.0.id, text) ∷ [] }

-- `_channel_addressed`
unfoldable pub channel_addressed : Env → Event → World → Answer × World
channel_addressed env event w = elim (resolve_channel env event.turn.channel w.store) [
  | none ↦ (unknown_channel, w)
  | some c ↦
      let text = codes event.turn.text in
      if event.verbatim
      then (delivered_verbatim, add_transcript c text w)
      else (accepted, spawn c text (inject_framing env) (codes event.turn.channel) event w.store w)
]

unfoldable pub handle : Env → Event → World → Answer × World
handle env event w =
    if is_empty event.event_type then channel_addressed env event w else named env event w

-- `_run_and_deliver`: what is sent, and what becomes of it.
unfoldable pub deliver_to : Env → Job → Option Text
deliver_to env job =
    voice_delivery_target job.channel.channel_type
      (elim job.conversation.person_id [ none ↦ none | some p ↦ some (codes p) ]) job.target
      env.voice

unfoldable pub run_and_deliver : Env → Job → ℕ → Option (Text × Text) × ℕ
run_and_deliver env job posts = elim (env.run_turn job) [
  | none ↦ (none, posts)
  | some reply ↦
      let sent : Option (Text × Text) × ℕ = elim (deliver_to env job) [
        | none ↦ (none, posts)
        | some target ↦ (some (target, reply), (deliver env.dry_run env.net posts).1)
      ] in
      if is_empty reply || is_ignore reply then (none, posts) else sent
]
