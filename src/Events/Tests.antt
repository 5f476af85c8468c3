-- ===== src/Events/Tests.antt =====
-- A small house: one skill, one channel.
use joshua_ai.Base.{
  String, Bool, true, false, some, none, [], ◌∷◌, ◌++◌, ◌==◌, List_eq, ℕ_eq, String_eq, ◌≡◌, refl,
  map, if◌then◌else◌,
}
use joshua_ai.Base.Dict
use joshua_ai.Base.Text.{Text, codes, strip, lstrip, rstrip, is_space, join, cut}
use joshua_ai.Delivery.{
  status, deliver, deliver_from, verdict, request, attempts_from, is_retryable, is_ignore,
  voice_delivery_target,
}
use joshua_ai.Chunks.{splitlines, ends_line}
use joshua_ai.Turns.{
  TurnEvent, Handle, Channel, Store, dm, group, shared, per_person, get_or_create_conversation,
  select_conversation,
}
use joshua_ai.Turns
use joshua_ai.Events.{
  Event, Env, World, accepted, ignored, unknown_channel, split_ref, type_of, first_by,
  find_channels, resolve_logical, resolve_channel, ensure_channel, channel_row, owner_of, spawn,
  named, add_transcript, channel_addressed, handle, deliver_to, run_and_deliver,
}
use joshua_ai.Events.Skills.{
  read_pair, read_block, parse_frontmatter, slug_tail, is_event_type, skill_of, get_skill,
  append_event_payload, marker,
}
use joshua_ai.Events.Kept.{arrived, arrive_all}
use joshua_ai.Events.Orphan.{handle-ensure_channel}

program : Unit {0}
unfolding strip lstrip rstrip is_space join cut splitlines ends_line Dict.get Dict.put deliver
    deliver_from verdict request attempts_from is_retryable is_ignore voice_delivery_target
    get_or_create_conversation select_conversation split_ref type_of first_by find_channels
    resolve_logical resolve_channel ensure_channel spawn named add_transcript channel_addressed
    handle deliver_to run_and_deliver read_pair read_block parse_frontmatter slug_tail is_event_type
    skill_of get_skill append_event_payload
program = tt

abbrev nl : Text
nl = b'\n' ∷ []

abbrev door_file : Text
door_file =
    marker
    ++ nl
    ++ codes "destination: \"anna\""
    ++ nl
    ++ codes "no pair"
    ++ nl
    ++ marker
    ++ nl
    ++ codes "Say who is at the door."
    ++ nl

abbrev env : Env
env = record {
  read_text = λ name. if name == codes "door.md" then some door_file else none;
  resolve = λ name.
      if name == codes "anna"
      then some (record { channel_id = "telegram:7"; chat_kind = dm })
      else none;
  event_file = none;
  before = λ a b. false;
  run_turn = λ job. some (codes "Bob is at the door.");
  voice = none;
  dry_run = false;
  net = λ n. status 200;
}

abbrev house : Channel
house = record {
  id = "telegram:-100";
  channel_type = "telegram";
  display_name = none;
  default_person_id = none;
  session_mode = shared;
}

abbrev world : World
world = record {
  store = record {
    people = [];
    handles = [];
    channels = ("telegram:-100", house) ∷ [];
    conversations = [];
    next_id = 5;
  };
  transcript = [];
  jobs = [];
}

abbrev turn : String → String → TurnEvent
turn channel text = record {
  channel = channel;
  chat = record { kind = dm; id = "7"; title = none };
  handle = none;
  is_event = true;
  text = text;
  message_id = none;
}

abbrev event : Text → Bool → String → Event
event event_type verbatim channel = record {
  turn = turn channel "The wash is done.";
  event_type = event_type;
  payload = some (codes "{}");
  verbatim = verbatim;
  attachments = [];
}

abbrev door : Event
door = event (codes "door") false ""

-- The answers of four events, and the rows of the transcript.
door_accepted : (handle env door world).0 ≡ accepted
unfolding program
door_accepted = refl

bad_type : (handle env (event (codes "../door") false "") world).0 ≡ ignored
unfolding program
bad_type = refl

group_event :
    (handle env (event [] true "telegram:group") world).1.transcript
    ≡ (5, codes "The wash is done.") ∷ []
unfolding program
group_event = refl

nobody_there : (handle env (event [] false "telegram:dm:anna") world).0 ≡ unknown_channel
unfolding program
nobody_there = refl

door_said :
    map (λ job. run_and_deliver env job 0) (handle env door world).1.jobs
    ≡ (some (codes "anna", codes "Bob is at the door."), 1) ∷ []
unfolding program
door_said = refl

abbrev anna : Handle
anna = record { type = "telegram"; id = "7" }

handle-ensure_channel_example :
    let st : Store = (arrive_all env (arrived door ∷ []) (handle env door world).1).store in
    let row = channel_row (record { channel_id = "telegram:7"; chat_kind = dm }) in
    (row.session_mode ≡ per_person)
    × (row.default_person_id ≡ none)
    × (Turns.ensure_channel
          (turn "telegram:7" "hi")
          anna
          (some (record { id = "anna"; display_name = "Anna" }))
          st
        ≡ (row, st))
    × (ensure_channel (record { channel_id = "telegram:7"; chat_kind = dm }) st ≡ (row, st))
    × (owner_of row ≡ none)
unfolding program
handle-ensure_channel_example =
    handle-ensure_channel env door world (record { channel_id = "telegram:7"; chat_kind = dm })
      (
        record {
          event_type = codes "door";
          destination = codes "anna";
          prompt = codes "Say who is at the door.";
          framing = none;
        },
        refl,
        refl,
        refl,
        refl,
        refl,
      )
      (arrived door ∷ []) (turn "telegram:7" "hi") anna
      (some (record { id = "anna"; display_name = "Anna" })) refl
