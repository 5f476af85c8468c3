-- ===== src/Destinations.antt =====
-- The targets of a delivery: channels/joshua_channels/destinations.py, over the adapters of
-- registry.py, with `resolve_ref` of adapters/telegram.py.
pub mod Adapters
pub mod Sound
pub mod Registered
pub mod Reach
pub mod Telegram
pub mod Sample
mod Tests
use Prim.Native.Char.{Char, code}
use joshua_ai.Base.{
  String, Bool, true, false, ◌&&◌, ◌==◌, ℕ_eq, String_eq, Option, some, none, List, [], ◌∷◌,
  if◌then◌else◌,
}
use joshua_ai.Base.Dict
use joshua_ai.Base.Dict.{Dict}
use joshua_ai.Base.Text.{is_space}
use joshua_ai.Roster.{Roster, Person, Group, person, handle_ids, groups_by_chat}

pub data Kind : Type 0 where
  dm group : Kind

-- An adapter as resolution sees it: a logical ref to the id of a chat.
abbrev pub Adapter : Type 0
Adapter = String → Option String

-- The channels of the configuration: which ones have their credentials, and the service of an
-- iMessage chat where the section is there.
pub record Channels : Type 0 where
  pub telegram : Bool
  pub imessage : Bool
  pub dm_service : Option String

-- The adapters by their type, the configuration, and its named destinations.
pub record Settings : Type 0 where
  pub adapters : Dict String Adapter
  pub roster : Roster
  pub channels : Channels
  pub destinations : Dict String String

pub record Resolved : Type 0 where
  pub channel : String
  pub channel_type : String
  pub chat_id : String
  pub kind : Kind
  pub title : Option String
  pub person_id : Option String

-- `f"{s}{t}"`
abbrev pub joined : String → String → String
joined String.[] t = t
joined (String.◌∷◌ c s) t = String.◌∷◌ c (joined s t)

-- `ref.partition(":")`: none where there is no colon.
unfoldable pub cut_ref : String → Option (String × String)
cut_ref String.[] = none
cut_ref (String.◌∷◌ c s) =
    let more : Option (String × String) = elim (cut_ref s) [
      | none ↦ none
      | some (a, b) ↦ some (String.◌∷◌ c a, b)
    ] in
    if code c == b':' then some ("", s) else more

-- What is left of a text after a prefix, none where it has another.
unfoldable pub after_prefix : String → String → Option String
after_prefix String.[] s = some s
after_prefix (String.◌∷◌ p ps) String.[] = none
after_prefix (String.◌∷◌ p ps) (String.◌∷◌ c s) =
    let rest = after_prefix ps s in if code p == code c then rest else none

-- `s.strip()`
unfoldable pub lstrip_ref : String → String
lstrip_ref String.[] = ""
lstrip_ref (String.◌∷◌ c s) =
    let rest = lstrip_ref s in if is_space (code c) then rest else String.◌∷◌ c s

unfoldable pub rstrip_ref : String → String
rstrip_ref String.[] = ""
rstrip_ref (String.◌∷◌ c s) =
    let rest = rstrip_ref s in if is_space (code c) && rest == "" then "" else String.◌∷◌ c rest

-- The value of an optional text that counts as true.
unfoldable pub non_empty : Option String → Option String
non_empty none = none
non_empty (some s) = if s == "" then none else some s

unfoldable pub or_name : Option String → Option String → Option String
or_name title name = elim (non_empty title) [ none ↦ name | some t ↦ some t ]

-- `_group_by_id`
unfoldable pub group_by_id : List Group → String → String → Option Group
group_by_id [] channel group_id = none
group_by_id (g ∷ gs) channel group_id =
    let rest = group_by_id gs channel group_id in
    if g.channel == channel && g.id == group_id then some g else rest

unfoldable pub person_name : Roster → String → Option String
person_name cfg person_id = elim (person cfg person_id) [ none ↦ none | some p ↦ some p.name ]

-- `_make`
abbrev pub make : String → String → Kind → Option String → Option String → Resolved
make channel_type chat_id kind title person_id = record {
  channel = joined channel_type (joined ":" chat_id);
  channel_type = channel_type;
  chat_id = chat_id;
  kind = kind;
  title = title;
  person_id = person_id;
}

abbrev pub group_title : Roster → String → String → String
group_title cfg channel_type group_id = elim (group_by_id cfg.groups channel_type group_id) [
  | none ↦ group_id
  | some g ↦ g.id
]

unfoldable pub resolve_group :
    Settings → Adapter → String → String → Option String → Option Resolved
resolve_group cfg adapter channel_type group_id name =
    elim (non_empty (adapter (joined "group:" group_id))) [
      | none ↦ none
      | some chat_id ↦
          let title = or_name (some (group_title cfg.roster channel_type group_id)) name in
          some (make channel_type chat_id group title none)
    ]

unfoldable pub resolve_dm : Settings → Adapter → String → String → Option String → Option Resolved
resolve_dm cfg adapter channel_type person_id name =
    elim (non_empty (adapter (joined "dm:" person_id))) [
      | none ↦ none
      | some chat_id ↦
          let title = or_name (person_name cfg.roster person_id) name in
          some (make channel_type chat_id dm title (some person_id))
    ]

unfoldable pub resolve_literal : Settings → String → String → Option String → Resolved
resolve_literal cfg channel_type rest name = elim (groups_by_chat cfg.roster channel_type rest) [
  | some g ↦ make channel_type rest group (some g.id) none
  | none ↦ make channel_type rest dm name none
]

-- What follows the type, for an adapter that is there.
unfoldable pub resolve_rest : Settings → Adapter → String → String → Option String → Option Resolved
resolve_rest cfg adapter channel_type rest name = elim (after_prefix "group:" rest) [
  | some group_id ↦ resolve_group cfg adapter channel_type group_id name
  | none ↦ elim (after_prefix "dm:" rest) [
    | some person_id ↦ resolve_dm cfg adapter channel_type person_id name
    | none ↦ some (resolve_literal cfg channel_type rest name)
  ]
]

-- `_resolve_ref`
unfoldable pub resolve_ref : Settings → String → Option String → Option Resolved
resolve_ref cfg ref name = elim (cut_ref ref) [
  | none ↦ none
  | some (channel_type, rest) ↦ elim (Dict.get channel_type cfg.adapters) [
    | none ↦ none
    | some adapter ↦ if rest == "" then none else resolve_rest cfg adapter channel_type rest name
  ]
]

unfoldable pub resolve_target : Settings → String → Option Resolved
resolve_target cfg target = elim (cut_ref target) [
  | some _ ↦ resolve_ref cfg target none
  | none ↦ elim (non_empty (Dict.get target cfg.destinations)) [
    | none ↦ none
    | some ref ↦ resolve_ref cfg ref (some target)
  ]
]

unfoldable pub resolve : Settings → String → Option Resolved
resolve cfg raw =
    let target = rstrip_ref (lstrip_ref raw) in
    if target == "" then none else resolve_target cfg target

-- `resolve_ref` of the Telegram adapter.
unfoldable pub first_handle : Person → String → Option String
first_handle p handle_type = elim (handle_ids p handle_type) [ [] ↦ none | h ∷ hs ↦ some h ]

unfoldable pub telegram_dm : Roster → Adapter
telegram_dm cfg person_id = elim (person cfg person_id) [
  | none ↦ none
  | some p ↦ first_handle p "telegram"
]

unfoldable pub telegram_group : Roster → Adapter
telegram_group cfg group_id = elim (group_by_id cfg.groups "telegram" group_id) [
  | none ↦ none
  | some g ↦ some g.chat_id
]

unfoldable pub telegram : Roster → Adapter
telegram cfg ref = elim (after_prefix "dm:" ref) [
  | some person_id ↦ telegram_dm cfg person_id
  | none ↦ elim (after_prefix "group:" ref) [
    | none ↦ none
    | some group_id ↦ telegram_group cfg group_id
  ]
]
