-- ===== src/Pool/Roles.antt =====
-- The role and the group that a session of core/joshua_core/engine/manager.py carries to the gateway.
use Prim.Native.Char.{code}
use joshua_ai.Base.{
  String, Bool, Option, some, none, [], ◌==◌, ℕ_eq, String_eq, if◌then◌else◌, ◌≡◌, ◌≢◌, All,
}
use joshua_ai.Roster.{
  Roster, Role, Person, Group, member, guest, person, groups_by_chat, group_role,
}
use joshua_ai.Roster.Roles.{NamesMember}

-- What the two methods read of the channel and the conversation.
pub record Chat : Type 0 where
  pub is_shared : Bool
  pub channel_type : String
  pub channel_id : String
  pub person_id : Option String

-- `channel_id.partition(":")[2]`
unfoldable pub after_colon : String → String
after_colon String.[] = ""
after_colon (String.◌∷◌ c s) = if code c == b':' then s else after_colon s

-- `_chat_id`
unfoldable pub chat_id : String → String
chat_id channel_id = let rest = after_colon channel_id in if rest == "" then channel_id else rest

-- The person of a direct message: `session_mode != "shared" and conversation.person_id`.
abbrev pub direct_person : Chat → Option String
direct_person c = elim c.person_id [
  | none ↦ none
  | some id ↦ if c.is_shared then none else if id == "" then none else some id
]

abbrev pub chat_group : Roster → Chat → Option Group
chat_group cfg c = groups_by_chat cfg c.channel_type (chat_id c.channel_id)

unfoldable pub conversation_group : Roster → Chat → Option Group
conversation_group cfg c = elim (direct_person c) [ none ↦ chat_group cfg c | some id ↦ none ]

-- The role by the person of a direct message, or by the group of the chat.
unfoldable pub person_role : Option Person → Role
person_role none = guest
person_role (some p) = p.role

unfoldable pub chat_role : Roster → Option Group → Role
chat_role cfg none = guest
chat_role cfg (some g) = (group_role cfg g).0

-- `_conversation_role`; a chat that is not direct has the group that `_conversation_group` gives.
unfoldable pub role_for : Roster → Chat → Option String → Role
role_for cfg c (some id) = person_role (person cfg id)
role_for cfg c none = chat_role cfg (chat_group cfg c)

unfoldable pub conversation_role : Roster → Chat → Role
conversation_role cfg c = role_for cfg c (direct_person c)

-- Core can vouch for the chat: its person is a member, or it is a configured group with members
-- listed, all of whom are members.
abbrev pub Vouched : Roster → Chat → Option String → Type 0
Vouched cfg c (some id) = (p : Person) × (person cfg id ≡ some p) × (p.role ≡ member)
Vouched cfg c none =
    (g : Group) × (chat_group cfg c ≡ some g)
    × (g.members ≢ [])
    × All (NamesMember cfg g.channel) g.members
