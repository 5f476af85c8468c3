-- ===== src/Files/FreeName.antt =====
-- The name of a copy in the wiki: `_digest_name` and `_free_name` of
-- gateway/joshua_gateway/files_mcp/server.py, with digest_tag of shared/joshua_shared/attachments.py.
-- How a number prints, which texts are alphanumeric and the digest beside a file are parameters.
use joshua_ai.Base.{
  ℕ, suc, zero, Bool, not, ◌&&◌, ◌||◌, Option, some, none, [], ◌∷◌, ◌++◌, ◌==◌, ℕ_eq, List_eq,
  Option_eq, is_empty, length, take, if◌then◌else◌,
}
use joshua_ai.Base.Text.{Text, codes, strip, lower, ends_with}
use joshua_ai.Paths.{FilePath}
use joshua_ai.Files.{Volume, exists, stem_suffix}

unfoldable pub digest_tag : (Text → Bool) → Option Text → Text
digest_tag is_alnum none = []
digest_tag is_alnum (some sha256) =
    let tag = take 6 (lower (strip sha256)) in if is_alnum tag then tag else []

unfoldable pub digest_name : (Text → Bool) → Text → Option Text → Text
digest_name is_alnum name sha256 =
    let tag = digest_tag is_alnum sha256 in
    let parted = stem_suffix name in
    if is_empty tag || ends_with (codes "-" ++ tag) parted.0
    then name
    else parted.0 ++ (codes "-" ++ (tag ++ parted.1))

module _ (str_of : ℕ → Text) where
  -- `directory / f"{stem}-{counter}{suffix}"`
  abbrev pub numbered : FilePath → Text → Text → ℕ → FilePath
  numbered dir stem suffix counter = dir ++ (stem ++ (codes "-" ++ (str_of counter ++ suffix))) ∷ []

  -- The loop of `_free_name` on fuel.
  unfoldable pub next_free : ℕ → Volume → FilePath → Text → Text → ℕ → Option FilePath
  next_free zero volume dir stem suffix counter = none
  next_free (suc fuel) volume dir stem suffix counter =
      let rest = next_free fuel volume dir stem suffix (suc counter) in
      if exists (numbered dir stem suffix counter) volume
      then rest
      else some (numbered dir stem suffix counter)

  unfoldable pub free_name :
      (FilePath → Option Text) → Volume → FilePath → Text → Option Text → Option FilePath
  free_name digest_of volume dir name sha256 =
      let candidate = dir ++ name ∷ [] in
      let parted = stem_suffix name in
      let other = next_free (suc (length volume)) volume dir parted.0 parted.1 2 in
      if not (exists candidate volume)
      then some candidate
      else if not (sha256 == none) && digest_of candidate == sha256
      then some candidate
      else other
