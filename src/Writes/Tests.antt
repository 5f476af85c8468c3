-- ===== src/Writes/Tests.antt =====
-- The calls of one turn, and the theorem on them.
use joshua_ai.Base.{
  Bool, true, false, Option, some, none, List, [], ◌∷◌, ◌≡◌, refl, elem, ◌↔◌, List_eq, ℕ_eq,
  String_eq,
}
use joshua_ai.Base.Dict
use joshua_ai.Base.Text.{Text, codes}
use joshua_ai.Writes.{
  text, ToolCall, journal_tool, journal_day, journal_path, target_path, path_of, collect,
  written_paths, failed_writes,
}
use joshua_ai.Writes.Landed.{NoRepeat, SomeWrote, written_paths_lem}

program : Unit {0}
unfolding Dict.get journal_day journal_path target_path path_of collect written_paths failed_writes
program = tt

abbrev no_date : Text → Option Text
no_date raw = none

abbrev today : Option Text
today = some (codes "2026/08/27")

abbrev write : Bool → ToolCall
write ok = record {
  name = codes "mcp__files__write_file";
  ok = ok;
  input = ("path", text (codes "wiki/x.md")) ∷ [];
}

abbrev calls : List ToolCall
calls =
    write false
    ∷ write true
    ∷ record { name = journal_tool; ok = true; input = ("slug", text (codes "walk")) ∷ [] }
    ∷ write true
    ∷ []

log_of_calls :
    written_paths no_date today calls
    ≡ codes "wiki/x.md" ∷ codes "wiki/journal/2026/08/27/walk.md" ∷ []
unfolding program
log_of_calls = refl

one_failed : failed_writes calls ≡ 1
unfolding program
one_failed = refl

written_paths_lem_example :
    ((p : Text)
      → (elem p (written_paths no_date today calls) ≡ true) ↔ SomeWrote no_date today p calls)
    × NoRepeat (written_paths no_date today calls)
written_paths_lem_example = written_paths_lem no_date today calls
