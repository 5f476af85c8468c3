-- ===== src/Files/Moves.antt =====
-- What a rename leaves as it is.
use joshua_ai.Base.{
  ℕ, true, false, not, ◌&&◌, some, List, [], ◌∷◌, ◌++◌, ◌==◌, ℕ_eq, List_eq, if_false, ◌≡◌, refl,
  ap, sym, ◌∙◌, subst, arith, List-cases, Bool-cases, inl, inr,
}
use mathlib.Core.List.{append_assoc, append-nil}
use joshua_ai.Base.Dict
use joshua_ai.Base.Dict.{Dict, keys, get-put, get-remove_other}
use joshua_ai.Base.Text.{Text}
use joshua_ai.Paths.{
  FilePath, Root, Resolved, resolved, refused, index_error, resolve, roots, member, is_relative_to,
}
use joshua_ai.Paths.Confined.{resolve-IsConfined}
use joshua_ai.Files.{
  Volume, Outside, Outcome, failed, crashed, path_error, is_below, wiki_dir, journal_root,
  in_journal, parent, rename_at, rename_file, rename,
}
use joshua_ai.Files.Below.{
  may_change, Same, checked-Same, first_failure-none, is_relative_to-last, is_relative_to-parent,
  parent-append, roots-writes, apart, may_write, not_below,
}

-- A file does not move into the journal from outside of it.
parent_outside :
    (data_root src : FilePath) (name : Text)
    → in_journal data_root src ≡ false
    → is_below (journal_root data_root) (parent src ++ name ∷ []) ≡ false
unfolding in_journal
parent_outside data_root src name outside =
    let journal = journal_root data_root in
    let dest = parent src ++ name ∷ [] in
    elim (Bool-cases (is_below journal dest)) [
      | inr above ↦ above
      | inl below ↦
          let parted : (is_relative_to journal dest ≡ true) × ((journal == dest) ≡ false) =
            ground (arith, below) in
          let inside =
            is_relative_to-parent journal src
              (is_relative_to-last journal (parent src) name parted.0 parted.1) in
          absurd (cc)
    ]

dest_may :
    (data_root : FilePath) (role : Text) (src : FilePath) (root : Root) (r : Text) (rs : FilePath)
    (name : Text)
    → (role == member) ≡ true
    → root.base ≡ wiki_dir data_root
    → src ≡ root.base ++ r ∷ rs
    → in_journal data_root src ≡ false
    → (role == member
        && is_relative_to (wiki_dir data_root) (parent src ++ name ∷ [])
        && not (is_below (journal_root data_root) (parent src ++ name ∷ [])))
      ≡ true
dest_may data_root role src root r rs name is_member is_wiki is_path outside =
    may_write data_root role (parent src ++ name ∷ []) root (parent (r ∷ rs) ++ name ∷ []) is_member
      is_wiki
      (ap (λ p. parent p ++ name ∷ []) is_path
        ∙ ap (λ p. p ++ name ∷ []) (parent-append root.base r rs)
        ∙ append_assoc root.base (parent (r ∷ rs)) (name ∷ []))
      (parent_outside data_root src name outside)

moved-Same :
    (path src dest : FilePath) (bytes : List ℕ) (volume : Volume)
    → (src == path) ≡ false
    → (dest == path) ≡ false
    → Dict.get path (Dict.put dest bytes (Dict.remove src volume)) ≡ Dict.get path volume
moved-Same path src dest bytes volume from to =
    get-put dest path bytes (Dict.remove src volume)
    ∙ if_false (dest == path) (some bytes) (Dict.get path (Dict.remove src volume)) to
    ∙ get-remove_other src path volume from

rename_at-Same :
    (data_root path : FilePath) (role name new_name n : Text) (root : Root) (src rest : FilePath)
    (volume : Volume)
    → Dict.has (wiki_dir data_root) volume ≡ false
    → Dict.get n (roots data_root role) ≡ some root
    → src ≡ root.base ++ rest
    → may_change data_root role (rename name new_name) path ≡ false
    → Same path volume (rename_at data_root root src new_name volume)
unfolding rename_at
rename_at-Same data_root path role name new_name n root src rest volume no_file is_root is_path h =
    checked-Same path volume _ _ (λ passed.
      let named = first_failure-none _ _ _ passed in
      let writes = first_failure-none _ _ _ named.1 in
      let outside = first_failure-none _ _ _ writes.1 in
      let there = first_failure-none _ _ _ outside.1 in
      let can : root.can_write ≡ true = ground (arith, writes.0) in
      let (is_member, is_wiki) = roots-writes data_root role n root is_root can in
      let call = rename name new_name in
      let src_may =
        may_write data_root role src root rest is_member is_wiki is_path
          (not_below data_root src outside.0) in
      elim (List-cases rest) [
        | inl empty ↦
            let at_wiki : src ≡ wiki_dir data_root =
              is_path ∙ ap (λ q. root.base ++ q) empty ∙ append-nil root.base ∙ is_wiki in
            let has = subst (λ p. Dict.has p volume ≡ false) (sym at_wiki) no_file in
            absurd (ground (arith, has, there.0))
        | inr (r, rs, more) ↦
            moved-Same path src _ _ volume (apart data_root role call src path src_may h) (
              apart data_root role call _ path
                (dest_may data_root role src root r rs _ is_member is_wiki
                  (is_path ∙ ap (λ q. root.base ++ q) more) outside.0)
                h)
      ])

pub rename_file-Same :
    (py : Outside) (data_root path : FilePath) (role name new_name : Text) (volume : Volume)
    → Dict.has (wiki_dir data_root) volume ≡ false
    → may_change data_root role (rename name new_name) path ≡ false
    → Same path volume (rename_file py data_root role name new_name volume)
unfolding rename_file
rename_file-Same py data_root path role name new_name volume no_file h =
    let ended : Resolved → Outcome × Volume = λ r. elim r [
      | refused error ↦ (failed (path_error error), volume)
      | index_error ↦ (crashed, volume)
      | resolved root src ↦ rename_at data_root root src new_name volume
    ] in
    let found : (r : Resolved)
        → resolve py.realpath name (roots data_root role) false ≡ r
        → Same path volume (ended r) =
      λ r.
        elim r
          as (λ r.
            resolve py.realpath name (roots data_root role) false ≡ r
            → Same path volume (ended r)) [
              | refused error ↦ λ _. refl
              | index_error ↦ λ _. refl
              | resolved root src ↦ λ e.
                  let (n, rest, is_root, is_path, plain, shown, inside, writes, md) =
                    resolve-IsConfined py.realpath name (roots data_root role) false root src e in
                  rename_at-Same data_root path role name new_name n root src rest volume no_file
                    is_root is_path h
            ] in
    found (resolve py.realpath name (roots data_root role) false) refl
