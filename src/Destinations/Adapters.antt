-- ===== src/Destinations/Adapters.antt =====
-- The adapters of the program: `resolve_ref` of channels/joshua_channels/adapters/cli.py and
-- adapters/imessage/adapter.py, and the registry that `register_adapters` of app.py fills.
use joshua_ai.Base.{String, Option, some, none, [], ◌==◌, String_eq, if◌then◌else◌, ◌≡◌}
use joshua_ai.Base.Dict
use joshua_ai.Base.Dict.{Dict}
use joshua_ai.Roster.{Roster, person}
use joshua_ai.Destinations.{
  Adapter, Settings, Channels, joined, cut_ref, after_prefix, non_empty, first_handle, group_by_id,
  telegram,
}

-- The terminal's: the value of a `dm:` ref, whatever it is.
unfoldable pub cli : Adapter
cli ref = elim (cut_ref ref) [
  | none ↦ none
  | some (kind, value) ↦ if kind == "dm" then non_empty (some value) else none
]

-- `f"{service};-;{handle}"`
abbrev pub chat_guid : String → String → String
chat_guid service handle = joined service (joined ";-;" handle)

abbrev pub service_of : Option String → String
service_of none = "iMessage"
service_of (some service) = service

unfoldable pub imessage_dm : Roster → String → Adapter
imessage_dm cfg service person_id = elim (person cfg person_id) [
  | none ↦ none
  | some p ↦ elim (non_empty (first_handle p "imessage")) [
    | none ↦ none
    | some handle ↦ some (chat_guid service handle)
  ]
]

unfoldable pub imessage_group : Roster → Adapter
imessage_group cfg group_id = elim (group_by_id cfg.groups "imessage" group_id) [
  | none ↦ none
  | some g ↦ some g.chat_id
]

unfoldable pub imessage : Roster → String → Adapter
imessage cfg service ref = elim (after_prefix "dm:" ref) [
  | some person_id ↦ imessage_dm cfg service person_id
  | none ↦ elim (after_prefix "group:" ref) [
    | none ↦ none
    | some group_id ↦ imessage_group cfg group_id
  ]
]

-- The terminal is always on.
unfoldable pub register_adapters : Roster → Channels → Dict String Adapter
register_adapters cfg channels =
    let terminal = Dict.put "cli" cli [] in
    let more =
      if channels.telegram then Dict.put "telegram" (telegram cfg) terminal else terminal in
    if channels.imessage
    then Dict.put "imessage" (imessage cfg (service_of channels.dm_service)) more
    else more

-- The adapters are those that the program registers.
abbrev pub Registered : Settings → Type 0
Registered cfg = cfg.adapters ≡ register_adapters cfg.roster cfg.channels
