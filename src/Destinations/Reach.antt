-- ===== src/Destinations/Reach.antt =====
-- Whom a resolved target reaches.
use joshua_ai.Base.{String_eq, Option, some, none, ◌≡◌}
use joshua_ai.Base.Dict
use joshua_ai.Roster.{groups_by_chat}
use joshua_ai.Destinations.Sound.{Owned, IsGroup, Sound}
use joshua_ai.Destinations.Adapters.{Registered}
use joshua_ai.Destinations.{dm, group, Settings, Resolved}

-- A target that names a person is a direct chat of that person; any other is a group
-- exactly where its chat is the chat of a configured group.
abbrev pub Reaches : Settings → Resolved → Type 0
Reaches cfg r = elim r.person_id [
  | some person_id ↦ (r.kind ≡ dm) × Owned cfg r.channel_type person_id r.chat_id
  | none ↦ elim r.kind [
    | group ↦ IsGroup cfg r.channel_type r.chat_id
    | dm ↦ groups_by_chat cfg.roster r.channel_type r.chat_id ≡ none
  ]
]

abbrev Safe : Settings → Option Resolved → Type 0
Safe cfg none = Unit
Safe cfg (some r) = Reaches cfg r
