-- ===== src/Turns.antt =====
-- The inbound API of core: core/joshua_core/turns.py, with the rows of
-- core/joshua_core/store/repo.py that it reads and writes, and the submitting side,
-- channels/joshua_channels/core_client.py. Times are seconds of a monotonic clock.
mod Idempotency
pub mod Cases
pub mod Window
pub mod Rows
pub mod Senders
pub mod Resolving
pub mod Capacity
mod Tests
pub use Idempotency.{Seen, seen_ttl}
unfoldable pub use Idempotency.{purge, check_and_add}
use joshua_ai.Base.{
  ℕ, zero, suc, ◌+◌, ◌*◌, String, Bool, true, false, not, ◌&&◌, ◌||◌, Option, none, some, List, [],
  ◌∷◌, ◌++◌, ◌==◌, HasEq, String_eq, ℕ_eq, Option_eq, Pair_eq, if◌then◌else◌, leb, length, is_empty,
  drop, take,
}
use joshua_ai.Base.Dict
use joshua_ai.Base.Dict.{Dict}
use joshua_ai.Base.Text.{Text, codes}
use joshua_ai.Roster
use joshua_ai.Roster.{Roster, Group, groups_by_chat}
use joshua_ai.Delivery.{is_ignore}

pub data ChatKind : Type 0 where
  dm group : ChatKind

pub record Handle : Type 0 where
  pub type : String
  pub id : String

pub record Chat : Type 0 where
  pub kind : ChatKind
  pub id : String
  pub title : Option String

-- The fields of `TurnEvent` that the service reads; `is_event` is `kind == "event"`.
pub record TurnEvent : Type 0 where
  pub channel : String
  pub chat : Chat
  pub handle : Option Handle
  pub is_event : Bool
  pub text : String
  pub message_id : Option String

-- Rows of `people`, `person_handles`, `channels` and `conversations`.
pub record Person : Type 0 where
  pub id : String
  pub display_name : String

pub data SessionMode : Type 0 where
  per_person shared : SessionMode

pub record Channel : Type 0 where
  pub id : String
  pub channel_type : String
  pub display_name : Option String
  pub default_person_id : Option String
  pub session_mode : SessionMode

pub record Conversation : Type 0 where
  pub id : ℕ
  pub channel_id : String
  pub person_id : Option String

pub record Store : Type 0 where
  pub people : Dict String Person
  -- (channel_type, handle) to the person's id
  pub handles : Dict (String × String) String
  pub channels : Dict String Channel
  pub conversations : List Conversation
  -- the next value of the conversations' id
  pub next_id : ℕ

pub record Resolution : Type 0 where
  pub channel : Channel
  pub conversation : Conversation
  pub person : Option Person
  pub is_group : Bool
  pub speaker : Option String

unfoldable pub get_person : Store → String → Option Person
get_person st person_id = Dict.get person_id st.people

unfoldable pub get_person_by_handle : Store → String → String → Option Person
get_person_by_handle st channel_type handle = elim (Dict.get (channel_type, handle) st.handles) [
  | none ↦ none
  | some pid ↦ get_person st pid
]

-- `_select_conversation`; a missing person is compared by `IS NULL`.
unfoldable pub select_conversation :
    String → Option String → List Conversation → Option Conversation
select_conversation channel_id person_id [] = none
select_conversation channel_id person_id (c ∷ cs) =
    if c.channel_id == channel_id && c.person_id == person_id
    then some c
    else select_conversation channel_id person_id cs

unfoldable pub get_or_create_conversation : String → Option String → Store → Conversation × Store
get_or_create_conversation channel_id person_id st =
    elim (select_conversation channel_id person_id st.conversations) [
      | some c ↦ (c, st)
      | none ↦
          let c : Conversation = record {
            id = st.next_id;
            channel_id = channel_id;
            person_id = person_id;
          } in
          (c, record st { conversations = c ∷ st.conversations; next_id = suc st.next_id })
    ]

abbrev pub person_id_of : Option Person → Option String
person_id_of none = none
person_id_of (some p) = some p.id

-- The row that `resolve` writes for a channel that has none.
abbrev pub new_channel : TurnEvent → Handle → Option Person → Channel
new_channel event handle person = record {
  id = event.channel;
  channel_type = handle.type;
  display_name = event.chat.title;
  default_person_id = elim event.chat.kind [ group ↦ none | dm ↦ person_id_of person ];
  session_mode = elim event.chat.kind [ group ↦ shared | dm ↦ per_person ];
}

unfoldable pub ensure_channel : TurnEvent → Handle → Option Person → Store → Channel × Store
ensure_channel event handle person st = elim (Dict.get event.channel st.channels) [
  | some c ↦ (c, st)
  | none ↦
      let c = new_channel event handle person in
      (c, record st { channels = Dict.put event.channel c st.channels })
]

-- The person that the conversation of a turn belongs to.
abbrev pub owner_of : TurnEvent → Option Person → Option String
owner_of event person = elim event.chat.kind [ group ↦ none | dm ↦ person_id_of person ]

-- The record that `resolve` returns.
abbrev pub resolution_of : TurnEvent → Handle → Option Person → Channel → Conversation → Resolution
resolution_of event handle person channel conversation = record {
  channel = channel;
  conversation = conversation;
  person = person;
  is_group = elim event.chat.kind [ group ↦ true | dm ↦ false ];
  speaker = elim event.chat.kind [
    | dm ↦ none
    | group ↦ elim person [ none ↦ some handle.id | some p ↦ some p.display_name ]
  ];
}

-- The end of `resolve`: the channel, the conversation and the speaker of a routed turn.
unfoldable pub routed_to : TurnEvent → Handle → Option Person → Store → Resolution × Store
routed_to event handle person st =
    let c = ensure_channel event handle person st in
    let v = get_or_create_conversation c.0.id (owner_of event person) c.1 in
    (resolution_of event handle person c.0 v.0, v.1)

unfoldable pub sender_of : Store → Handle → Option Person
sender_of st handle =
    if handle.type == "cli"
    then get_person st handle.id
    else get_person_by_handle st handle.type handle.id

-- The person a turn runs for: `none` is the refusal, `some none` is nobody. A `Group` of the
-- configuration has no `default_person`, so `getattr` gives None and a group message from an
-- unknown handle runs with no person.
unfoldable pub runs_for : Roster → TurnEvent → Handle → Store → Option (Option Person)
runs_for settings event handle st = elim (sender_of st handle) [
  | some p ↦ some (some p)
  | none ↦ elim event.chat.kind [
    | dm ↦ none
    | group ↦ elim (groups_by_chat settings handle.type event.chat.id) [
      | none ↦ none
      | some g ↦ some none
    ]
  ]
]

unfoldable pub resolve_handle :
    Roster → TurnEvent → Store → Option Handle → Option (Resolution × Store)
resolve_handle settings event st none = none
resolve_handle settings event st (some handle) = elim (runs_for settings event handle st) [
  | none ↦ none
  | some person ↦ some (routed_to event handle person st)
]

unfoldable pub resolve : Roster → TurnEvent → Store → Option (Resolution × Store)
resolve settings event st = resolve_handle settings event st event.handle

-- The answers of `accept`, each with its status.
pub data Answer : Type 0 where
  accepted : ℕ → Answer
  duplicate unknown_sender overloaded events_unavailable : Answer
  event_routed : ℕ → Answer

abbrev pub status_of : Answer → ℕ
status_of (accepted turn) = 202
status_of duplicate = 200
status_of unknown_sender = 403
status_of overloaded = 429
status_of events_unavailable = 501
status_of (event_routed code) = code

pub record Service : Type 0 where
  pub seen : Seen
  pub store : Store
  -- the running background turns
  pub background : List (Resolution × TurnEvent)

-- The settings, and the status of the event router, if there is one.
pub record Settings : Type 0 where
  pub roster : Roster
  pub pool_max : ℕ
  pub events : Option (TurnEvent → ℕ)

abbrev pub at_capacity : Settings → Service → Bool
at_capacity cfg s = leb (cfg.pool_max * 2) (length s.background)

-- The check on `message_id`, which an empty or missing id passes.
unfoldable pub is_repeat : Option String → ℕ → Seen → Bool × Seen
is_repeat none now seen = (false, seen)
is_repeat (some id) now seen =
    let r = check_and_add id now seen in if id == "" then (false, seen) else r

-- `accept` past the idempotency check.
unfoldable pub admit : Settings → TurnEvent → Service → Answer × Service
admit cfg event s = elim (resolve cfg.roster event s.store) [
  | none ↦ (unknown_sender, s)
  | some (r, st) ↦
      let s' = record s { store = st } in
      if at_capacity cfg s
      then (overloaded, s')
      else (accepted r.conversation.id, record s' { background = (r, event) ∷ s.background })
]

-- The event router's answer, or none: the events path reads no state of the service.
abbrev pub event_answer : Settings → TurnEvent → Answer
event_answer cfg event = elim cfg.events [
  | none ↦ events_unavailable
  | some route ↦ event_routed (route event)
]

unfoldable pub accept : Settings → TurnEvent → ℕ → Service → Answer × Service
accept cfg event now s =
    let asked = is_repeat event.message_id now s.seen in
    let s' = record s { seen = asked.1 } in
    let past = admit cfg event s' in
    if event.is_event
    then (event_answer cfg event, s)
    else if asked.0
    then (duplicate, s')
    else past

-- What a finished turn delivers: `_run_and_deliver`. `none` is the turn that raised.
abbrev pub turn_failed : Text
turn_failed = codes "Sorry, something went wrong on my end. Please try again."

unfoldable pub reply_of : Option Text → Option Text
reply_of none = some turn_failed
reply_of (some text) = if is_empty text || is_ignore text then none else some text

-- `stream`: no idempotency check and no capacity check.
unfoldable pub stream : Settings → TurnEvent → Service → Option (Resolution × Service)
stream cfg event s = elim (resolve cfg.roster event s.store) [
  | none ↦ none
  | some (r, st) ↦ some (r, record s { store = st })
]

-- `TurnAck`, and `CoreClient.submit_turn` on the statuses of its one or two posts.
pub record TurnAck : Type 0 where
  pub accepted : Bool
  pub status : ℕ

abbrev pub ack : ℕ → TurnAck
ack status = record { accepted = status == 202; status = status }

unfoldable pub submit_turn : ℕ → ℕ → TurnAck
submit_turn first second =
    if first == 429
    then (if second == 429 then record { accepted = false; status = 429 } else ack second)
    else ack first
