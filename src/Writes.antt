-- ===== src/Writes.antt =====
-- Which files a turn wrote, of core/joshua_core/engine/manager.py: `written_paths` and
-- `failed_writes`. Python's date parser and the day of the instance are parameters.
pub mod Arguments
pub mod Wrote
pub mod Landed
mod Tests
use joshua_ai.Base.{
  ℕ, ◌+◌, String, Bool, true, false, not, ◌&&◌, ◌||◌, Option, some, none, List, [], ◌∷◌, ◌++◌, ◌==◌,
  String_eq, List_eq, ℕ_eq, elem, is_empty, if◌then◌else◌,
}
use joshua_ai.Base.Dict
use joshua_ai.Base.Dict.{Dict}
use joshua_ai.Base.Text.{Text, codes}

-- An argument of a tool call: a text, or something else that is truthy or not.
pub data Value : Type 0 where
  text : Text → Value
  other : Bool → Value

pub record ToolCall : Type 0 where
  pub name : Text
  pub ok : Bool
  pub input : Dict String Value

abbrev pub journal_tool : Text
journal_tool = codes "mcp__files__write_journal_entry"

abbrev pub write_tools : List Text
write_tools = codes "mcp__files__write_file" ∷ codes "mcp__files__rename_file" ∷ journal_tool ∷ []

abbrev pub is_truthy : Option Value → Bool
is_truthy none = false
is_truthy (some (text t)) = not (is_empty t)
is_truthy (some (other b)) = b

-- `value if isinstance(value, str) and value`
abbrev pub full_text : Option Value → Option Text
full_text none = none
full_text (some (text t)) = if is_empty t then none else some t
full_text (some (other b)) = none

abbrev pub is_write : ToolCall → Bool
is_write call = elem call.name write_tools

unfoldable pub failed_writes : List ToolCall → ℕ
failed_writes [] = 0
failed_writes (call ∷ calls) = (if is_write call && not call.ok then 1 else 0) + failed_writes calls

module _ (fromisoformat : Text → Option Text) (today : Option Text) where
  -- The day of an entry as `%Y/%m/%d`.
  unfoldable pub journal_day : Option Text → Option Text
  journal_day (some raw) = fromisoformat raw
  journal_day none = today

  unfoldable pub journal_path : Dict String Value → Option Text
  journal_path input = elim (full_text (Dict.get "slug" input)) [
    | none ↦ none
    | some slug ↦ elim (journal_day (full_text (Dict.get "date" input))) [
      | none ↦ none
      | some day ↦ some (codes "wiki/journal/" ++ (day ++ (codes "/" ++ (slug ++ codes ".md"))))
    ]
  ]

  -- `data.get("to") or data.get("path")`, when it is a text that is not empty.
  unfoldable pub target_path : Dict String Value → Option Text
  target_path input =
      if is_truthy (Dict.get "to" input)
      then full_text (Dict.get "to" input)
      else full_text (Dict.get "path" input)

  unfoldable pub path_of : ToolCall → Option Text
  path_of call =
      if is_write call && call.ok
      then (if call.name == journal_tool then journal_path call.input else target_path call.input)
      else none

  -- The loop of `written_paths`, with the paths so far.
  unfoldable pub collect : List ToolCall → List Text → List Text
  collect [] paths = paths
  collect (call ∷ calls) paths =
      let same = collect calls paths in
      elim (path_of call) [
        | none ↦ same
        | some path ↦ collect calls (if elem path paths then paths else paths ++ path ∷ [])
      ]

  unfoldable pub written_paths : List ToolCall → List Text
  written_paths calls = collect calls []
