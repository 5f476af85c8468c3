-- ===== src/Deliver/Tests.antt =====
-- Deliveries to a sample configuration.
use joshua_ai.Base.{
  ℕ, String, Option, some, none, List, [], ◌∷◌, ℕ_eq, List_eq, String_eq, ◌≡◌, refl,
}
use joshua_ai.Base.Dict
use joshua_ai.Base.Text.{Text, codes, starts_with, split, is_space}
use joshua_ai.Roster.{person, find_person, has_handle, handle_ids, groups_by_chat, find_group}
use joshua_ai.Paths.{FilePath}
use joshua_ai.Destinations.{
  cut_ref, after_prefix, lstrip_ref, rstrip_ref, non_empty, or_name, group_by_id, person_name,
  resolve_group, resolve_dm, resolve_literal, resolve_rest, resolve_ref, resolve_target, resolve,
  first_handle, telegram_dm, telegram_group, telegram,
}
use joshua_ai.Destinations.Sample.{settings}
use joshua_ai.Deliver.{
  other_person, group_chat, unsafe, map_parts, map_attachment, map_attachments, Body, Sending,
  invalid_attachment, answer, deliver,
}

program : Unit {0}
unfolding Dict.get is_space person find_person has_handle handle_ids groups_by_chat find_group
    cut_ref after_prefix lstrip_ref rstrip_ref non_empty or_name group_by_id person_name
    resolve_group resolve_dm resolve_literal resolve_rest resolve_ref resolve_target resolve
    first_handle telegram_dm telegram_group telegram starts_with split map_parts map_attachment
    map_attachments answer deliver
program = tt

abbrev send : Sending → Option (Option ℕ)
send s = some (some 2)

abbrev data_root : FilePath
data_root = codes "data" ∷ []

abbrev asked : String → List Text → Option Body
asked target attachments =
    some (record { channel = target; content = "hi"; attachments = attachments })

abbrev sent_to_anna : Sending
sent_to_anna = record {
  channel_type = "telegram";
  chat_id = "77";
  content = "hi";
  files =
      (codes "data" ∷ codes "wiki" ∷ codes "a.md" ∷ [])
      ∷ (codes "data" ∷ codes "people" ∷ codes "anna" ∷ codes "b.png" ∷ [])
      ∷ (codes "data" ∷ codes "people" ∷ codes "anna" ∷ codes "c.png" ∷ [])
      ∷ [];
}

abbrev files_for_anna : List Text
files_for_anna = codes "wiki/./a.md" ∷ codes "people/anna/b.png" ∷ codes "c.png" ∷ []

to_family :
    deliver send settings data_root (asked "everyone" (codes "people/anna/b.png" ∷ []))
    ≡ (invalid_attachment group_chat, none)
unfolding program
to_family = refl

of_another :
    deliver send settings data_root (asked "telegram:dm:anna" (codes "people/bob/b.png" ∷ []))
    ≡ (invalid_attachment other_person, none)
unfolding program
of_another = refl

going_up :
    deliver send settings data_root (asked "telegram:dm:anna" (codes "wiki/../x" ∷ []))
    ≡ (invalid_attachment unsafe, none)
unfolding program
going_up = refl
