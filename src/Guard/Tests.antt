-- ===== src/Guard/Tests.antt =====
-- The guard on a small roster, and each theorem at an input.
use joshua_ai.Base.{
  ℕ, ◌*◌, String, Bool, true, false, none, some, List, [], ◌∷◌, map, ◌≡◌, refl, String_eq, Pair_eq,
}
use joshua_ai.Base.Dict
use joshua_ai.Roster.{
  Roster, Person, Group, member, guest, people_by_handle, find_person, person, find_handle,
  has_handle, handle_ids, find_group, groups_by_chat, group_role, first_guest, is_member_handle,
}
use joshua_ai.Guard.{
  Guard, Inbound, ChatKind, dm, group, unknown_sender, init, check, admit, refuse, noted,
  note_unconfigured, group_for, bump, run,
}
use joshua_ai.Guard.Ring.{append_bounded}
use joshua_ai.Guard.TokenBucket.{allow, spend, refilled}
use joshua_ai.Guard.Admission.{Answer, check-Answer}
use joshua_ai.Guard.Records.{Tracks, Traffic, checked, turned_away, serve_all, refusals, recent-run}

program : Unit {0}
unfolding handle_ids has_handle find_person person find_handle people_by_handle find_group
    groups_by_chat is_member_handle first_guest group_role init bump refuse group_for
    note_unconfigured noted admit check run append_bounded refilled spend allow Dict.get Dict.has
    Dict.put
program = tt

abbrev alex : Person
alex = record { id = "alex"; name = "Alex"; role = member; handles = ("telegram", "77" ∷ []) ∷ [] }

abbrev sam : Person
sam = record {
  id = "sam";
  name = "Sam";
  role = guest;
  handles = ("telegram", "78" ∷ "79" ∷ []) ∷ [];
}

abbrev family : Group
family = record {
  id = "family";
  channel = "telegram";
  chat_id = "-100";
  members = "77" ∷ "80" ∷ [];
}

abbrev team : Group
team = record { id = "team"; channel = "telegram"; chat_id = "-101"; members = "77" ∷ [] }

abbrev roster : Roster
roster = record { people = alex ∷ sam ∷ []; groups = family ∷ team ∷ [] }

-- A message in a chat, at a second.
abbrev message : String → ChatKind → String → ℕ → Inbound
message chat_id kind sender_handle at = record {
  channel_type = "telegram";
  sender_handle = sender_handle;
  chat_id = chat_id;
  chat_kind = kind;
  chat_title = none;
  text_len = 5;
  now = at * 1000000;
  wall = at;
}

abbrev start : Guard
start = init 100 2

abbrev allowed_of : Guard → List (Roster × Inbound) → List Bool
allowed_of s [] = []
allowed_of s ((cfg, m) ∷ rest) = (check cfg s m).0.allowed ∷ allowed_of (check cfg s m).1 rest

-- Two messages a minute: the third is refused, and half a minute later one more gets through.
abbrev burst : List (Roster × Inbound)
burst =
    (roster, message "77" dm "77" 0)
    ∷ (roster, message "77" dm "77" 1)
    ∷ (roster, message "77" dm "77" 2)
    ∷ (roster, message "77" dm "77" 31)
    ∷ []

third_refused : allowed_of start burst ≡ true ∷ true ∷ false ∷ true ∷ []
unfolding program
third_refused = refl

stranger_in_dm : (check roster start (message "9" dm "9" 0)).0.reason ≡ some unknown_sender
unfolding program
stranger_in_dm = refl

listed_in_group : (check roster start (message "-100" group "80" 0)).0.group_id ≡ some "family"
unfolding program
listed_in_group = refl

check-Answer_example :
    Answer roster start
      (message "-100" group "80" 0)
      (check roster start (message "-100" group "80" 0)).0
check-Answer_example = check-Answer roster start (message "-100" group "80" 0)

-- The burst, and a caller that the voice channel turns away itself.
abbrev traffic : List Traffic
traffic =
    checked roster (message "77" dm "77" 0)
    ∷ checked roster (message "77" dm "77" 1)
    ∷ turned_away "voice" "kitchen" "kitchen" unknown_sender 5
    ∷ checked roster (message "77" dm "77" 2)
    ∷ []

refused_by_both : map (λ r. r.channel_type) (refusals start traffic) ≡ "voice" ∷ "telegram" ∷ []
unfolding program
refused_by_both = refl

recent-run_example : Tracks (refusals start traffic) (serve_all start traffic)
recent-run_example = recent-run 100 2 traffic

team_role : group_role roster team ≡ (member, none)
unfolding program
team_role = refl

family_role : group_role roster family ≡ (guest, some "80")
unfolding program
family_role = refl
