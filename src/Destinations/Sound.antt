-- ===== src/Destinations/Sound.antt =====
-- Whose a chat is, and what an adapter says truly of it.
use joshua_ai.Base.{String, String_eq, true, some, is_some, ◌≡◌}
use joshua_ai.Base.Dict
use joshua_ai.Roster.{Person, person, has_handle, groups_by_chat}
use joshua_ai.Destinations.{Adapter, joined, Settings}
use joshua_ai.Destinations.Adapters.{chat_guid, service_of}

-- The chat of a person: the outbox of the person's terminal, one of the person's Telegram handles, or
-- the iMessage chat, on the configured service, of one of the person's handles there.
pub data Owned (cfg : Settings) : String → String → String → Type 0 where
  outbox : (person_id : String) → Owned cfg "cli" person_id person_id
  telegram_chat :
      (p : Person) (person_id chat_id : String)
      → person cfg.roster person_id ≡ some p
      → has_handle p "telegram" chat_id ≡ true
      → Owned cfg "telegram" person_id chat_id
  imessage_chat :
      (p : Person) (person_id handle : String)
      → person cfg.roster person_id ≡ some p
      → has_handle p "imessage" handle ≡ true
      → Owned cfg "imessage" person_id (chat_guid (service_of cfg.channels.dm_service) handle)

abbrev pub IsGroup : Settings → String → String → Type 0
IsGroup cfg channel_type chat_id = is_some (groups_by_chat cfg.roster channel_type chat_id) ≡ true

-- What resolution relies on an adapter for: the chat of a person is one of that person's chats, and the
-- chat of a group is the chat of a configured group.
abbrev pub Sound : Settings → String → Adapter → Type 0
Sound cfg channel_type adapter =
    ((person_id chat_id : String)
      → adapter (joined "dm:" person_id) ≡ some chat_id
      → Owned cfg channel_type person_id chat_id)
    × ((group_id chat_id : String)
        → adapter (joined "group:" group_id) ≡ some chat_id
        → IsGroup cfg channel_type chat_id)

abbrev pub AllSound : Settings → Type 0
AllSound cfg =
    (channel_type : String) (adapter : Adapter)
    → Dict.get channel_type cfg.adapters ≡ some adapter
    → Sound cfg channel_type adapter
