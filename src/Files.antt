-- ===== src/Files.antt =====
-- The tools of gateway/joshua_gateway/files_mcp/server.py that change a file, over Paths. The volume is
-- the files by their paths; a path is a directory where a file lies below it.
pub mod Below
pub mod Moves
pub mod Frame
pub mod Written
pub mod FreeName
pub mod Found
mod Tests
use joshua_ai.Base.{
  ℕ, Bool, true, false, not, ◌&&◌, ◌||◌, Option, some, none, is_some, List, [], ◌∷◌, ◌++◌, ◌==◌,
  ℕ_eq, List_eq, is_empty, any, elem, map, length, leb, ltb, take, if◌then◌else◌,
}
use joshua_ai.Base.Dict
use joshua_ai.Base.Dict.{Dict, keys}
use joshua_ai.Base.Text.{Text, codes, strip, lstrip, rstrip, lower, contains, join}
use joshua_ai.Chunks.{splitlines}
use joshua_ai.Paths.{
  FilePath, Root, Resolved, resolved, refused, index_error, PathError, resolve, roots,
  last_component, is_relative_to,
}

abbrev pub Volume : Type 0
Volume = Dict FilePath (List ℕ)

-- A date as `strftime` prints it.
pub record Day : Type 0 where
  pub year : Text
  pub month : Text
  pub day : Text

-- What the server calls: the real path, the encoding of a text, whether YAML reads a text, a date read
-- from a text, the frontmatter of an entry, and the pattern of a slug.
pub record Outside : Type 0 where
  pub realpath : FilePath → FilePath
  pub encode : Text → List ℕ
  pub yaml_reads : Text → Bool
  pub date_of : Text → Option Day
  pub frontmatter : Day → List Text → Text
  pub is_slug : Text → Bool

pub data Failure : Type 0 where
  bad_mode journal_only bad_frontmatter file_exists too_large cannot_rename read_only entry_renamed
        not_found not_bare extension_changed no_name same_name target_exists bad_date bad_slug :
      Failure
  path_error : PathError → Failure

-- `crashed` is an exception that the tool does not turn into an answer.
pub data Outcome : Type 0 where
  wrote : FilePath → ℕ → Outcome
  renamed : FilePath → FilePath → Outcome
  entered : FilePath → ℕ → Bool → Outcome
  failed : Failure → Outcome
  crashed : Outcome

abbrev pub max_bytes : ℕ
max_bytes = 262144

-- The outcome of the first check that fails.
unfoldable pub first_failure : List (Bool × Outcome) → Option Outcome
first_failure [] = none
first_failure ((fails, outcome) ∷ checks) =
    let rest = first_failure checks in if fails then some outcome else rest

-- A change of the volume that only happens where no check fails.
unfoldable pub checked : List (Bool × Outcome) → Outcome × Volume → Volume → Outcome × Volume
checked checks changed volume = elim (first_failure checks) [
  | some outcome ↦ (outcome, volume)
  | none ↦ changed
]

abbrev pub is_below : FilePath → FilePath → Bool
is_below dir path = is_relative_to dir path && not (dir == path)

unfoldable pub is_dir : FilePath → Volume → Bool
is_dir path volume = any (λ file. is_below path file) (keys volume)

abbrev pub exists : FilePath → Volume → Bool
exists path volume = Dict.has path volume || is_dir path volume

-- `_atomic_write`, none where the system refuses: the path is a directory, or a file stands above it.
unfoldable pub atomic_write : FilePath → List ℕ → Volume → Option Volume
atomic_write path bytes volume =
    if is_dir path volume || any (λ file. is_below file path) (keys volume)
    then none
    else some (Dict.put path bytes volume)

abbrev pub wiki_dir : FilePath → FilePath
wiki_dir data_root = data_root ++ codes "wiki" ∷ []

abbrev pub journal_root : FilePath → FilePath
journal_root data_root = wiki_dir data_root ++ codes "journal" ∷ []

-- `_in_journal`
unfoldable pub in_journal : FilePath → FilePath → Bool
in_journal data_root path = is_relative_to (journal_root data_root) path

-- The lines before the closing fence, none where there is no such fence.
unfoldable pub until_fence : List Text → Option (List Text)
until_fence [] = none
until_fence (l ∷ ls) =
    let rest : Option (List Text) = elim (until_fence ls) [
      | none ↦ none
      | some block ↦ some (l ∷ block)
    ] in
    if strip l == codes "---" then some [] else rest

-- `_check_frontmatter` raises.
unfoldable pub breaks_frontmatter : Outside → Text → Bool
breaks_frontmatter py content = elim (splitlines content) [
  | [] ↦ false
  | l ∷ ls ↦
      let read : Bool = elim (until_fence ls) [
        | none ↦ false
        | some block ↦ not (py.yaml_reads (join (b'\n' ∷ []) block))
      ] in
      if strip l == codes "---" then read else false
]

abbrev pub is_mode : Text → Bool
is_mode mode = mode == codes "create" || mode == codes "overwrite" || mode == codes "append"

-- The bytes that a write in this mode leaves in the file.
abbrev pub written : Text → List ℕ → FilePath → Volume → List ℕ
written mode bytes path volume = elim (Dict.get path volume) [
  | none ↦ bytes
  | some old ↦ if mode == codes "append" then old ++ bytes else bytes
]

-- The end of a write: what it leaves, or an exception of the system.
abbrev pub landed : Outcome → FilePath → List ℕ → Volume → Outcome × Volume
landed outcome path bytes volume = elim (atomic_write path bytes volume) [
  | none ↦ (crashed, volume)
  | some after ↦ (outcome, after)
]

-- `_write_file`
unfoldable pub write_at : Outside → FilePath → Text → Text → FilePath → Volume → Outcome × Volume
write_at py data_root mode content path volume =
    let bytes = written mode (py.encode content) path volume in
    checked
      ((in_journal data_root path, failed journal_only)
        ∷ (breaks_frontmatter py content, failed bad_frontmatter)
        ∷ (mode == codes "create" && exists path volume, failed file_exists)
        ∷ (mode == codes "append" && is_dir path volume, crashed)
        ∷ (ltb max_bytes (length bytes), failed too_large)
        ∷ [])
      (landed (wrote path (length bytes)) path bytes volume) volume

unfoldable pub write_file :
    Outside → FilePath → Text → Text → Text → Text → Volume → Outcome × Volume
write_file py data_root role path content mode volume =
    let found : Outcome × Volume = elim (resolve py.realpath path (roots data_root role) true) [
      | refused error ↦ (failed (path_error error), volume)
      | index_error ↦ (crashed, volume)
      | resolved root target ↦ write_at py data_root mode content target volume
    ] in
    if is_mode mode then found else (failed bad_mode, volume)

-- `Path(name)` has no name for a single dot.
abbrev pub name_of : Text → Text
name_of t = if t == codes "." then [] else t

-- A name up to its last dot, and from that dot on.
unfoldable pub cut_last : Text → Option (Text × Text)
cut_last [] = none
cut_last (c ∷ t) =
    let here : Option (Text × Text) = if c == b'.' then some ([], c ∷ t) else none in
    elim (cut_last t) [ some (a, b) ↦ some (c ∷ a, b) | none ↦ here ]

-- `path.stem` and `path.suffix`
unfoldable pub stem_suffix : Text → Text × Text
stem_suffix name = elim (cut_last name) [
  | none ↦ (name, [])
  | some (stem, suffix) ↦
      if is_empty stem || ltb (length suffix) 2 then (name, []) else (stem, suffix)
]

abbrev pub is_safe_char : ℕ → Bool
is_safe_char c =
    (leb b'A' c && leb c b'Z')
    || (leb b'a' c && leb c b'z')
    || (leb b'0' c && leb c b'9')
    || elem c (codes "._-")

abbrev pub is_edge : ℕ → Bool
is_edge c = elem c (codes "._-")

-- `_sanitize_stem`
unfoldable pub sanitize_stem : Text → Text
sanitize_stem raw =
    rstrip is_edge
      (lstrip is_edge (take 48 (map (λ c. if is_safe_char c then c else b'_') (strip raw))))

abbrev pub parent : FilePath → FilePath
parent [] = []
parent (p ∷ []) = []
parent (p ∷ q ∷ ps) = p ∷ parent (q ∷ ps)

abbrev pub bytes_of : Option (List ℕ) → List ℕ
bytes_of none = []
bytes_of (some bytes) = bytes

-- `_rename_file` of a path that resolves.
unfoldable pub rename_at : FilePath → Root → FilePath → Text → Volume → Outcome × Volume
rename_at data_root root src new_name volume =
    let new = stem_suffix (name_of new_name) in
    let suffix = (stem_suffix (last_component src)).1 in
    let stem = sanitize_stem new.0 in
    let dest = parent src ++ (stem ++ suffix) ∷ [] in
    checked
      ((not (root.name == codes "wiki"), failed cannot_rename)
        ∷ (not root.can_write, failed read_only)
        ∷ (in_journal data_root src, failed entry_renamed)
        ∷ (not (Dict.has src volume), failed not_found)
        ∷ (
          is_empty (strip new_name)
              || elem b'/' new_name
              || elem b'\\' new_name
              || contains (codes "..") new_name,
          failed not_bare,
        )
        ∷ (not (lower new.1 == lower suffix), failed extension_changed)
        ∷ (is_empty stem, failed no_name)
        ∷ (dest == src, failed same_name)
        ∷ (exists dest volume, failed target_exists)
        ∷ [])
      (renamed src dest, Dict.put dest (bytes_of (Dict.get src volume)) (Dict.remove src volume))
      volume

unfoldable pub rename_file : Outside → FilePath → Text → Text → Text → Volume → Outcome × Volume
rename_file py data_root role path new_name volume =
    elim (resolve py.realpath path (roots data_root role) false) [
      | refused error ↦ (failed (path_error error), volume)
      | index_error ↦ (crashed, volume)
      | resolved root src ↦ rename_at data_root root src new_name volume
    ]

abbrev pub can_write_wiki : FilePath → Text → Bool
can_write_wiki data_root role = elim (Dict.get (codes "wiki") (roots data_root role)) [
  | none ↦ false
  | some root ↦ root.can_write
]

abbrev pub isoformat : Day → Text
isoformat d = d.year ++ (codes "-" ++ (d.month ++ (codes "-" ++ d.day)))

-- `journal_entry_path`
abbrev pub journal_entry_path : FilePath → Day → Text → FilePath
journal_entry_path data_root d slug =
    journal_root data_root ++ d.year ∷ d.month ∷ d.day ∷ (slug ++ codes ".md") ∷ []

-- The entry of a day, past the checks on the role and the date.
unfoldable pub enter_at :
    Outside → FilePath → Day → Text → Text → List Text → Volume → Outcome × Volume
enter_at py data_root d slug markdown people volume =
    let path = journal_entry_path data_root d slug in
    let bytes =
      py.encode (codes "---\n" ++ (py.frontmatter d people ++ (codes "\n---\n\n" ++ markdown))) in
    checked
      ((not (py.is_slug slug) || slug == isoformat d, failed bad_slug)
        ∷ (ltb max_bytes (length bytes), failed too_large)
        ∷ [])
      (landed (entered path (length bytes) (exists path volume)) path bytes volume) volume

-- `_write_journal_entry`, with no date or an empty one for today.
unfoldable pub write_journal_entry :
    Outside → FilePath → Day → Text → Text → Text → List Text → Text → Volume → Outcome × Volume
write_journal_entry py data_root today role slug markdown people date volume =
    let dated : Outcome × Volume = elim (py.date_of date) [
      | none ↦ (failed bad_date, volume)
      | some d ↦ enter_at py data_root d slug markdown people volume
    ] in
    let entry : Outcome × Volume =
      if is_empty date then enter_at py data_root today slug markdown people volume else dated in
    if can_write_wiki data_root role then entry else (failed read_only, volume)

-- The calls that change a file, with the current day of an entry.
pub data Call : Type 0 where
  write : Text → Text → Text → Call
  rename : Text → Text → Call
  enter : Day → Text → Text → List Text → Text → Call

unfoldable pub call_tool : Outside → FilePath → Text → Call → Volume → Outcome × Volume
call_tool py data_root role (write path content mode) volume =
    write_file py data_root role path content mode volume
call_tool py data_root role (rename path new_name) volume =
    rename_file py data_root role path new_name volume
call_tool py data_root role (enter today slug markdown people date) volume =
    write_journal_entry py data_root today role slug markdown people date volume
