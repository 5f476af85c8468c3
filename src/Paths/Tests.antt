-- ===== src/Paths/Tests.antt =====
-- Paths under /data, with no link, and each theorem at an input.
use joshua_ai.Base.{true, false, [], ◌∷◌, ◌≡◌, refl}
use joshua_ai.Base.Dict
use joshua_ai.Base.Text.{codes, is_space, lstrip, rstrip, strip, split, starts_with, ends_with}
use joshua_ai.Paths.{
  FilePath, Root, roots, resolved, refused, index_error, dot_dot, contain, guard_write, in_root,
  resolve_parts, resolve,
}
use joshua_ai.Paths.Confined.{IsConfined, resolve-IsConfined}

program : Unit {0}
unfolding Dict.get is_space lstrip rstrip strip split starts_with ends_with roots contain
    guard_write in_root resolve_parts resolve
program = tt

-- A file system without links.
abbrev no_links : FilePath → FilePath
no_links path = path

abbrev data_dir : FilePath
data_dir = codes "data" ∷ []

abbrev wiki : Root
wiki = record {
  name = codes "wiki";
  base = codes "data" ∷ codes "wiki" ∷ [];
  can_write = true;
  md_only = true;
}

abbrev note : FilePath
note = codes "data" ∷ codes "wiki" ∷ codes "x.md" ∷ []

member_writes :
    resolve no_links (codes "wiki//x.md") (roots data_dir (codes "member")) true
    ≡ resolved wiki note
unfolding program
member_writes = refl

up_is_refused :
    resolve no_links (codes "wiki/../x.md") (roots data_dir (codes "member")) false
    ≡ refused dot_dot
unfolding program
up_is_refused = refl

-- A path of dots has no component, and the first one is asked for.
dot_raises : resolve no_links (codes "./.") (roots data_dir (codes "member")) false ≡ index_error
unfolding program
dot_raises = refl

resolve-IsConfined_example : IsConfined no_links (roots data_dir (codes "member")) true wiki note
resolve-IsConfined_example =
    resolve-IsConfined no_links (codes "wiki//x.md") (roots data_dir (codes "member")) true wiki
      note member_writes
