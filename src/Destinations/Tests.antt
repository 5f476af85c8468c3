-- ===== src/Destinations/Tests.antt =====
-- Targets of a sample configuration.
use joshua_ai.Base.{ℕ_eq, String_eq, some, none, ◌≡◌, refl}
use joshua_ai.Base.Dict
use joshua_ai.Base.Text.{is_space}
use joshua_ai.Roster.{person, find_person, has_handle, handle_ids, groups_by_chat, find_group}
use joshua_ai.Destinations.{
  dm, group, make, cut_ref, after_prefix, lstrip_ref, rstrip_ref, non_empty, or_name, group_by_id,
  person_name, resolve_group, resolve_dm, resolve_literal, resolve_rest, resolve_ref,
  resolve_target, resolve, first_handle, telegram_dm, telegram_group, telegram,
}
use joshua_ai.Destinations.Adapters.{cli, imessage_dm, imessage_group, imessage}
use joshua_ai.Destinations.Sample.{settings}

program : Unit {0}
unfolding Dict.get is_space person find_person has_handle handle_ids groups_by_chat find_group
    cut_ref after_prefix lstrip_ref rstrip_ref non_empty or_name group_by_id person_name
    resolve_group resolve_dm resolve_literal resolve_rest resolve_ref resolve_target resolve
    first_handle telegram_dm telegram_group telegram cli imessage_dm imessage_group imessage
program = tt

everyone : resolve settings " everyone " ≡ some (make "telegram" "-100" group (some "family") none)
unfolding program
everyone = refl

to_her_phone :
    resolve settings "imessage:dm:anna"
    ≡ some (make "imessage" "any;-;+15550" dm (some "Anna") (some "anna"))
unfolding program
to_her_phone = refl

to_terminal : resolve settings "cli:dm:zoe" ≡ some (make "cli" "zoe" dm none (some "zoe"))
unfolding program
to_terminal = refl

nobody : resolve settings "telegram:dm:bob" ≡ none
unfolding program
nobody = refl
