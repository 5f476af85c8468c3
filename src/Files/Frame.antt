-- ===== src/Files/Frame.antt =====
-- What a call leaves as it is.
use joshua_ai.Base.{
  true, false, ◌&&◌, Option, some, none, List, [], ◌∷◌, ◌++◌, ◌==◌, ℕ_eq, List_eq, is_empty,
  if◌then◌else◌, if_cases, ◌≡◌, refl,
}
use mathlib.Core.List.{append_assoc}
use joshua_ai.Base.Dict
use joshua_ai.Base.Dict.{Dict, keys, get-put, get-remove_other}
use joshua_ai.Base.Text.{Text, codes}
use joshua_ai.Paths.{
  FilePath, Resolved, resolved, refused, index_error, resolve, roots, member, is_relative_to,
}
use joshua_ai.Paths.Confined.{resolve-IsConfined}
use joshua_ai.Files.{
  Volume, Day, Outside, Outcome, failed, crashed, path_error, bad_date, read_only, bad_mode,
  is_mode, wiki_dir, journal_root, in_journal, write_at, write_file, journal_entry_path, enter_at,
  write_journal_entry, Call, write, rename, enter, call_tool,
}
use joshua_ai.Files.Below.{
  may_change, Same, checked-Same, first_failure-none, landed-Same, is_relative_to-append,
  roots-writes, apart, under_wiki, may_write, not_below,
}
use joshua_ai.Files.Moves.{rename_file-Same}

write_at-Same :
    (py : Outside) (data_root path target : FilePath) (mode content : Text) (volume : Volume)
    → (in_journal data_root target ≡ false → (target == path) ≡ false)
    → Same path volume (write_at py data_root mode content target volume)
unfolding write_at
write_at-Same py data_root path target mode content volume other =
    checked-Same path volume _ _
      (λ passed. landed-Same path target _ _ volume (other (first_failure-none _ _ _ passed).0))

write_file-Same :
    (py : Outside) (data_root path : FilePath) (role name content mode : Text) (volume : Volume)
    → may_change data_root role (write name content mode) path ≡ false
    → Same path volume (write_file py data_root role name content mode volume)
unfolding write_file
write_file-Same py data_root path role name content mode volume h =
    let ended : Resolved → Outcome × Volume = λ r. elim r [
      | refused error ↦ (failed (path_error error), volume)
      | index_error ↦ (crashed, volume)
      | resolved root target ↦ write_at py data_root mode content target volume
    ] in
    let found : (r : Resolved)
        → resolve py.realpath name (roots data_root role) true ≡ r
        → Same path volume (ended r) =
      λ r.
        elim r
          as (λ r.
            resolve py.realpath name (roots data_root role) true ≡ r → Same path volume (ended r)) [
              | refused error ↦ λ _. refl
              | index_error ↦ λ _. refl
              | resolved root target ↦ λ e.
                  let (n, rest, is_root, is_path, plain, shown, inside, writes, md) =
                    resolve-IsConfined py.realpath name (roots data_root role) true root target e in
                  let (is_member, is_wiki) =
                    roots-writes data_root role n root is_root (writes refl) in
                  write_at-Same py data_root path target mode content volume (λ outside.
                    apart data_root role (write name content mode) target path
                      (may_write data_root role target root rest is_member is_wiki is_path
                        (not_below data_root target outside))
                      h)
            ] in
    if_cases (Same path volume) (is_mode mode)
      (ended (resolve py.realpath name (roots data_root role) true)) (failed bad_mode, volume)
      (λ _. found (resolve py.realpath name (roots data_root role) true) refl) (λ _. refl)

entry_may :
    (data_root : FilePath) (role : Text) (d : Day) (slug : Text)
    → (role == member) ≡ true
    → (role == member
        && is_relative_to (wiki_dir data_root) (journal_entry_path data_root d slug)
        && in_journal data_root (journal_entry_path data_root d slug))
      ≡ true
unfolding in_journal
entry_may data_root role d slug is_member =
    let rest = d.year ∷ d.month ∷ d.day ∷ (slug ++ codes ".md") ∷ [] in
    let inside : is_relative_to (wiki_dir data_root) (journal_entry_path data_root d slug) ≡ true =
      under_wiki data_root (journal_entry_path data_root d slug)
        (record { name = []; base = wiki_dir data_root; can_write = true; md_only = true })
        (codes "journal" ∷ rest) refl
        (append_assoc (wiki_dir data_root) (codes "journal" ∷ []) rest) in
    rw (is_member, inside, is_relative_to-append (journal_root data_root) rest) refl

write_journal_entry-Same :
    (py : Outside) (data_root path : FilePath) (role : Text) (today : Day) (slug markdown : Text)
    (people : List Text) (date : Text) (volume : Volume)
    → may_change data_root role (enter today slug markdown people date) path ≡ false
    → Same path volume
        (write_journal_entry py data_root today role slug markdown people date volume)
unfolding write_journal_entry enter_at roots Dict.get
write_journal_entry-Same py data_root path role today slug markdown people date volume h =
    let at : (d : Day)
        → (role == member) ≡ true
        → Same path volume (enter_at py data_root d slug markdown people volume) =
      λ d is_member.
        let target = journal_entry_path data_root d slug in
        checked-Same path volume _ _ (λ _. landed-Same path target _ _ volume (
          apart data_root role (enter today slug markdown people date) target path
            (entry_may data_root role d slug is_member) h)) in
    let dated : Option Day → Outcome × Volume = λ o. elim o [
      | none ↦ (failed bad_date, volume)
      | some d ↦ enter_at py data_root d slug markdown people volume
    ] in
    let of_date : (role == member) ≡ true → (o : Option Day) → Same path volume (dated o) =
      λ is_member o. elim o as (λ o. Same path volume (dated o)) [
        | none ↦ refl
        | some d ↦ at d is_member
      ] in
    if_cases (Same path volume) (role == member)
      (if is_empty date
        then enter_at py data_root today slug markdown people volume
        else dated (py.date_of date))
      (failed read_only, volume)
      (λ is_member.
        if_cases (Same path volume) (is_empty date)
          (enter_at py data_root today slug markdown people volume) (dated (py.date_of date))
          (λ _. at today is_member) (λ _. of_date is_member (py.date_of date)))
      (λ _. refl)

-- Whatever call of `write_file`, `rename_file` or `write_journal_entry` comes, with whatever role, it
-- leaves every file as it is that is not in the wiki, and every file where the role is not `member`.
-- Only an entry changes a file below `wiki/journal/`, and an entry changes no other. The wiki itself
-- is taken to be no file.
pub call_tool-Same :
    (py : Outside) (data_root path : FilePath) (role : Text) (call : Call) (volume : Volume)
    → Dict.has (wiki_dir data_root) volume ≡ false
    → may_change data_root role call path ≡ false
    → Dict.get path (call_tool py data_root role call volume).1 ≡ Dict.get path volume
unfolding call_tool
call_tool-Same py data_root path role (write name content mode) volume no_file h =
    write_file-Same py data_root path role name content mode volume h
call_tool-Same py data_root path role (rename name new_name) volume no_file h =
    rename_file-Same py data_root path role name new_name volume no_file h
call_tool-Same py data_root path role (enter today slug markdown people date) volume no_file h =
    write_journal_entry-Same py data_root path role today slug markdown people date volume h
