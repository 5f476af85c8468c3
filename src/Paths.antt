-- ===== src/Paths.antt =====
-- gateway/joshua_gateway/files_mcp/paths.py: which file a path of a request names. A path is the
-- list of its components; `os.path.realpath` is a parameter.
pub mod Confined
mod Tests
use joshua_ai.Base.{
  ℕ, String, Bool, true, false, not, ◌&&◌, ◌||◌, Option, some, none, List, [], ◌∷◌, ◌++◌, ◌==◌,
  ℕ_eq, List_eq, ltb, is_empty, elem, if◌then◌else◌, keep_if, any, length,
}
use joshua_ai.Base.Dict
use joshua_ai.Base.Dict.{Dict}
use joshua_ai.Base.Text.{Text, codes, strip, split, starts_with, ends_with}

-- An absolute path, from the top.
abbrev pub FilePath : Type 0
FilePath = List Text

pub record Root : Type 0 where
  pub name : Text
  pub base : FilePath
  pub can_write : Bool
  pub md_only : Bool

abbrev pub member : Text
member = codes "member"

unfoldable pub roots : FilePath → Text → Dict Text Root
roots data_root role =
    (
      codes "wiki",
      record {
        name = codes "wiki";
        base = data_root ++ codes "wiki" ∷ [];
        can_write = role == member;
        md_only = true;
      },
    )
    ∷ (
      codes "people",
      record {
        name = codes "people";
        base = data_root ++ codes "people" ∷ [];
        can_write = false;
        md_only = false;
      },
    )
    ∷ (
      codes "shared",
      record {
        name = codes "shared";
        base = data_root ++ codes "shared" ∷ [];
        can_write = false;
        md_only = false;
      },
    )
    ∷ []

abbrev pub retired_roots : List Text
retired_roots = codes "profile.md" ∷ codes "attachments" ∷ []

pub data PathError : Type 0 where
  empty_path invalid_path not_relative dot_dot retired unknown_root hidden read_only not_md
        escapes :
      PathError

-- `index_error` is `parts[0]` on a path with no component.
pub data Resolved : Type 0 where
  resolved : Root → FilePath → Resolved
  refused : PathError → Resolved
  index_error : Resolved

-- `PurePosixPath(raw).parts` of a relative path: the components that are neither empty nor a dot.
abbrev pub parts_of : Text → List Text
parts_of raw = keep_if (λ part. not (is_empty part) && not (part == codes ".")) (split b'/' raw)

-- `candidate.suffix == ".md"`, by the last component.
abbrev pub last_component : FilePath → Text
last_component [] = []
last_component (p ∷ []) = p
last_component (p ∷ q ∷ ps) = last_component (q ∷ ps)

abbrev pub is_md : FilePath → Bool
is_md path = ends_with (codes ".md") (last_component path) && ltb 3 (length (last_component path))

-- `cand_real == base_real or cand_real.is_relative_to(base_real)`
abbrev pub is_relative_to : FilePath → FilePath → Bool
is_relative_to [] path = true
is_relative_to (b ∷ base) [] = false
is_relative_to (b ∷ base) (p ∷ path) = b == p && is_relative_to base path

module _ (realpath : FilePath → FilePath) where
  unfoldable pub contain : Root → FilePath → Resolved
  contain root candidate =
      if is_relative_to (realpath root.base) (realpath candidate)
      then resolved root candidate
      else refused escapes

  unfoldable pub guard_write : Root → FilePath → Bool → Resolved
  guard_write root candidate write =
      let checked = contain root candidate in
      if write && not root.can_write
      then refused read_only
      else if write && root.md_only && not (is_md candidate)
      then refused not_md
      else checked

  unfoldable pub in_root : Option Root → Text → List Text → Bool → Resolved
  in_root none name rest write =
      if elem name retired_roots then refused retired else refused unknown_root
  in_root (some root) name rest write =
      if any (λ part. starts_with (codes ".") part) rest
      then refused hidden
      else guard_write root (root.base ++ rest) write

  unfoldable pub resolve_parts : Dict Text Root → List Text → Bool → Resolved
  resolve_parts root_set [] write = index_error
  resolve_parts root_set (name ∷ rest) write =
      if any (λ part. part == codes "..") (name ∷ rest)
      then refused dot_dot
      else in_root (Dict.get name root_set) name rest write

  unfoldable pub resolve : Text → Dict Text Root → Bool → Resolved
  resolve path root_set write =
      let raw = strip path in
      let found = resolve_parts root_set (parts_of raw) write in
      if is_empty raw
      then refused empty_path
      else if elem 0 raw
      then refused invalid_path
      else if starts_with (codes "/") raw || elem b'\\' raw
      then refused not_relative
      else found
