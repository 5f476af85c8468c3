-- ===== src/Files/Tests.antt =====
-- Calls on a small volume.
use joshua_ai.Base.{
  ℕ, Option, false, ◌++◌, ap, ◌⊎◌, ◌≢◌, true, not, some, none, [], ◌∷◌, ℕ_eq, List_eq, is_empty,
  ◌≡◌, refl, String,
}
use joshua_ai.Base.Dict
use joshua_ai.Base.Dict.{Dict, keys}
use joshua_ai.Base.Text.{
  Text, codes, strip, lstrip, rstrip, is_space, split, starts_with, ends_with, lower, to_lower,
  contains, join,
}
use joshua_ai.Chunks.{splitlines, ends_line}
use joshua_ai.Paths.{FilePath, contain, guard_write, in_root, resolve_parts, resolve, roots, member}
use joshua_ai.Files.{
  exists, Volume, Day, Outside, failed, crashed, wrote, file_exists, first_failure, checked, is_dir,
  atomic_write, in_journal, until_fence, breaks_frontmatter, write_at, write_file, cut_last,
  stem_suffix, sanitize_stem, rename_at, rename_file, enter_at, write_journal_entry, Call, rename,
  enter, call_tool,
}
use joshua_ai.Files.FreeName.{next_free, free_name}
use joshua_ai.Files.Found.{free_name-found}
use joshua_ai.Files.Frame.{call_tool-Same}
use joshua_ai.Files.Written.{Left, write_file-Left}

program : Unit {0}
unfolding strip lstrip rstrip is_space split starts_with ends_with lower to_lower contains join
    splitlines ends_line contain guard_write in_root resolve_parts resolve roots Dict.get Dict.put
    Dict.remove Dict.has first_failure checked is_dir atomic_write in_journal until_fence
    breaks_frontmatter write_at write_file cut_last stem_suffix sanitize_stem rename_at rename_file
    enter_at write_journal_entry call_tool
program = tt

abbrev today : Day
today = record { year = codes "2026"; month = codes "08"; day = codes "01" }

abbrev outside : Outside
outside = record {
  realpath = λ p. p;
  encode = λ t. t;
  yaml_reads = λ t. true;
  date_of = λ t. none;
  frontmatter = λ d people. codes "source: agent";
  is_slug = λ t. not (is_empty t);
}

abbrev data_root : FilePath
data_root = codes "data" ∷ []

abbrev file : String → String → FilePath
file dir name = codes "data" ∷ codes dir ∷ codes name ∷ []

abbrev volume : Volume
volume =
    (file "wiki" "a.md", codes "old ")
    ∷ (file "shared" "b.txt", codes "kept")
    ∷ (file "wiki" "LICENSE", codes "free")
    ∷ []

abbrev appended : Volume
appended =
    (file "wiki" "a.md", codes "old new")
    ∷ (file "shared" "b.txt", codes "kept")
    ∷ (file "wiki" "LICENSE", codes "free")
    ∷ []

appends :
    write_file outside data_root member (codes "wiki/a.md") (codes "new") (codes "append") volume
    ≡ (wrote (file "wiki" "a.md") 7, appended)
unfolding program
appends = refl

creates_once :
    (write_file outside data_root member
      (codes "wiki/a.md")
      (codes "new")
      (codes "create")
      volume).0
    ≡ failed file_exists
unfolding program
creates_once = refl

write_file-Left_example :
    Left outside (codes "append") (codes "new") volume (file "wiki" "a.md") 7 appended
write_file-Left_example =
    write_file-Left outside data_root member (codes "wiki/a.md") (codes "new") (codes "append")
      volume appended (file "wiki" "a.md") 7 appends

abbrev renames : Call
renames = rename (codes "wiki/a.md") (codes "b.md")

call_tool-Same_example :
    Dict.get (file "shared" "b.txt") (call_tool outside data_root member renames volume).1
    ≡ some (codes "kept")
unfolding Dict.get in_journal Dict.has
call_tool-Same_example =
    call_tool-Same outside data_root (file "shared" "b.txt") member renames volume refl refl

abbrev entry : Call
entry = enter today (codes "visit") (codes "hi") [] []

-- A file with no suffix takes the name of the journal, before there is one, and no entry is written
-- after that.
journal_taken :
    call_tool outside data_root member entry
      (call_tool outside data_root member
        (rename (codes "wiki/LICENSE") (codes "journal"))
        volume).1
    ≡ (
      crashed,
      (codes "data" ∷ codes "wiki" ∷ codes "a.md" ∷ [], codes "old ")
          ∷ (file "shared" "b.txt", codes "kept")
          ∷ (file "wiki" "journal", codes "free")
          ∷ [],
    )
unfolding program
journal_taken = refl

-- A number as one character.
abbrev printed : ℕ → Text
printed n = n ∷ []

first_char : Text → ℕ
first_char [] = 0
first_char (c ∷ t) = c

printed_apart : (a b : ℕ) → printed a ≡ printed b → a ≡ b
unfolding first_char
printed_apart a b e = ap first_char e

abbrev digests : FilePath → Option Text
digests p = some (codes "aa")

free_name-found_example :
    (p : FilePath) × (free_name printed digests volume
        (codes "data" ∷ codes "wiki" ∷ [])
        (codes "a.md")
        (some (codes "bb"))
      ≡ some p)
    × ((exists p volume ≡ false)
        ⊎ ((p ≡ (codes "data" ∷ codes "wiki" ∷ []) ++ codes "a.md" ∷ [])
            × (some (codes "bb") ≢ none)
            × (digests p ≡ some (codes "bb"))))
free_name-found_example =
    free_name-found printed digests volume (codes "data" ∷ codes "wiki" ∷ []) (codes "a.md")
      (some (codes "bb")) printed_apart

numbered_two :
    free_name printed digests volume
      (codes "data" ∷ codes "wiki" ∷ [])
      (codes "a.md")
      (some (codes "bb"))
    ≡ some (codes "data" ∷ codes "wiki" ∷ (codes "a-" ++ 2 ∷ codes ".md") ∷ [])
unfolding free_name next_free cut_last stem_suffix is_dir Dict.has Dict.get
numbered_two = refl
