-- ===== src/Destinations/Sample.antt =====
-- All adapters, one person, one group.
use joshua_ai.Base.{true, refl, ℕ_eq, String_eq, some, [], ◌∷◌}
use joshua_ai.Base.Dict
use joshua_ai.Roster.{Roster, Person, member}
use joshua_ai.Destinations.{Settings, telegram}
use joshua_ai.Destinations.Adapters.{cli, imessage, register_adapters, Registered}

abbrev pub anna : Person
anna = record {
  id = "anna";
  name = "Anna";
  role = member;
  handles = ("telegram", "77" ∷ "78" ∷ []) ∷ ("imessage", "+15550" ∷ []) ∷ [];
}

abbrev pub roster : Roster
roster = record {
  people = anna ∷ [];
  groups = record { id = "family"; channel = "telegram"; chat_id = "-100"; members = [] } ∷ [];
}

abbrev pub settings : Settings
settings = record {
  adapters =
      ("cli", cli) ∷ ("telegram", telegram roster) ∷ ("imessage", imessage roster "any") ∷ [];
  roster = roster;
  channels = record { telegram = true; imessage = true; dm_service = some "any" };
  destinations = ("everyone", "telegram:group:family") ∷ [];
}

pub settings-Registered : Registered settings
unfolding register_adapters Dict.put
settings-Registered = refl
