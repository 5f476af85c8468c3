-- ===== src/Turns/Tests.antt =====
-- The inbound API on a small store, and each theorem at an input.
use joshua_ai.Base.{ℕ, false, none, some, List, [], ◌∷◌, ◌≡◌, refl, arith, String_eq}
use joshua_ai.Base.Dict
use joshua_ai.Roster.{groups_by_chat}
use joshua_ai.Turns.{
  dm, Handle, TurnEvent, Person, Channel, Conversation, Store, Resolution, Settings, Service,
  accepted, overloaded, get_person, get_person_by_handle, select_conversation,
  get_or_create_conversation, ensure_channel, routed_to, sender_of, runs_for, resolve_handle,
  resolve, is_repeat, admit, accept, purge, check_and_add, status_of, submit_turn, reply_of, stream,
  new_channel, resolution_of,
}
use joshua_ai.Turns.Window.{Step, post, finish, step, run, submit_turn_overloaded}
use joshua_ai.Turns.Resolving.{resolve-Belongs, Belongs}
use joshua_ai.Turns.Capacity.{run-InRoom, InRoom}

program : Unit {0}
unfolding Dict.get Dict.put Dict.has purge check_and_add get_person get_person_by_handle
    select_conversation get_or_create_conversation ensure_channel routed_to sender_of runs_for
    resolve_handle resolve is_repeat admit accept step run submit_turn reply_of stream
    groups_by_chat
program = tt

abbrev alex : Handle
alex = record { type = "telegram"; id = "42" }

abbrev hello : TurnEvent
hello = record {
  channel = "telegram:42";
  chat = record { kind = dm; id = "42"; title = none };
  handle = some alex;
  is_event = false;
  text = "hello";
  message_id = some "m1";
}

abbrev empty_store : Store
empty_store = record {
  people = ("alex", record { id = "alex"; display_name = "Alex" }) ∷ [];
  handles = (("telegram", "42"), "alex") ∷ [];
  channels = [];
  conversations = [];
  next_id = 0;
}

abbrev settings : ℕ → Settings
settings pool_max = record {
  roster = record { people = []; groups = [] };
  pool_max = pool_max;
  events = none;
}

abbrev idle : Service
idle = record { seen = []; store = empty_store; background = [] }

first_is_accepted : (accept (settings 1) hello 5 idle).0 ≡ accepted 0
unfolding program
first_is_accepted = refl

no_room : (accept (settings 0) hello 5 idle).0 ≡ overloaded
unfolding program
no_room = refl

-- A second message, and the end of the first turn.
abbrev between : List Step
between = post (record hello { message_id = some "m2" }) 7 ∷ finish 0 ∷ []

submit_turn_overloaded_example :
    submit_turn (status_of (accept (settings 0) hello 5 idle).0) (
      status_of
        (accept (settings 0) hello 7 (run (settings 0) [] (accept (settings 0) hello 5 idle).1)).0)
    ≡ record { accepted = false; status = 200 }
submit_turn_overloaded_example =
    submit_turn_overloaded (settings 0) hello "m1" 5 7 [] idle (refl, refl, refl) no_room tt
      (omega arith)

abbrev alex_row : Person
alex_row = record { id = "alex"; display_name = "Alex" }

abbrev telegram_row : Channel
telegram_row = new_channel hello alex (some alex_row)

abbrev thread : Conversation
thread = record { id = 0; channel_id = "telegram:42"; person_id = some "alex" }

abbrev hello_resolution : Resolution
hello_resolution = resolution_of hello alex (some alex_row) telegram_row thread

abbrev written : Store
written = record empty_store {
  channels = ("telegram:42", telegram_row) ∷ [];
  conversations = thread ∷ [];
  next_id = 1;
}

hello_resolves : resolve (settings 1).roster hello empty_store ≡ some (hello_resolution, written)
unfolding program
hello_resolves = refl

resolve-Belongs_example : Belongs (settings 1).roster hello empty_store hello_resolution
resolve-Belongs_example =
    resolve-Belongs (settings 1).roster hello empty_store written hello_resolution hello_resolves

run-InRoom_example : InRoom (settings 1) (run (settings 1) between idle)
run-InRoom_example = run-InRoom (settings 1) between idle (omega arith)
