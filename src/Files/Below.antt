-- ===== src/Files/Below.antt =====
-- Which files a call may change, and paths below a directory.
use joshua_ai.Base.{
  ℕ, Bool, true, false, not, ◌&&◌, ◌||◌, Option, some, none, List, [], ◌∷◌, ◌++◌, ◌==◌, ℕ_eq,
  List_eq, any, if◌then◌else◌, if_cases, if_false, ◌≡◌, refl, ap, sym, ◌∙◌, subst, arith,
  Option-cases, Bool-cases, inl, inr, eq_of_beq, beq_self,
}
use joshua_ai.Base.Dict
use joshua_ai.Base.Dict.{Dict, keys, get-put, get-remove_other}
use joshua_ai.Base.Text.{Text, codes}
use joshua_ai.Paths.{FilePath, Root, roots, member, is_relative_to}
use joshua_ai.Files.{
  Volume, Outcome, crashed, first_failure, checked, is_below, is_dir, atomic_write, wiki_dir,
  journal_root, in_journal, landed, parent, Call, enter,
}

abbrev pub is_entry : Call → Bool
is_entry (enter today slug markdown people date) = true
is_entry _ = false

-- A member changes files of the wiki: those of the journal by an entry, and the others by the rest.
abbrev pub may_change : FilePath → Text → Call → FilePath → Bool
may_change data_root role call path =
    role == member
    && is_relative_to (wiki_dir data_root) path
    && (if is_entry call
        then in_journal data_root path
        else not (is_below (journal_root data_root) path))

abbrev pub Same : FilePath → Volume → Outcome × Volume → Type 0
Same path volume r = Dict.get path r.1 ≡ Dict.get path volume

pub checked-Same :
    (path : FilePath) (volume : Volume) (checks : List (Bool × Outcome))
    (changed : Outcome × Volume)
    → (first_failure checks ≡ none → Same path volume changed)
    → Same path volume (checked checks changed volume)
unfolding checked
checked-Same path volume checks changed same = elim (Option-cases (first_failure checks)) [
  | inl passed ↦ rw (passed, checked) (same passed)
  | inr (outcome, stopped) ↦ rw (stopped, checked) refl
]

pub first_failure-none :
    (b : Bool) (outcome : Outcome) (checks : List (Bool × Outcome))
    → first_failure ((b, outcome) ∷ checks) ≡ none
    → (b ≡ false) × (first_failure checks ≡ none)
unfolding first_failure
first_failure-none b outcome checks h = ground arith

pub landed-Same :
    (path target : FilePath) (outcome : Outcome) (bytes : List ℕ) (volume : Volume)
    → (target == path) ≡ false
    → Same path volume (landed outcome target bytes volume)
unfolding atomic_write
landed-Same path target outcome bytes volume other =
    let ended : Option Volume → Outcome × Volume =
      λ o. elim o [ none ↦ (crashed, volume) | some after ↦ (outcome, after) ] in
    if_cases (λ (o : Option Volume). Same path volume (ended o))
      (is_dir target volume || any (λ file. is_below file target) (keys volume)) none
      (some (Dict.put target bytes volume)) (λ _. refl)
      (λ _.
        get-put target path bytes volume
        ∙ if_false (target == path) (some bytes) (Dict.get path volume) other)

pub is_relative_to-append : (base rest : FilePath) → is_relative_to base (base ++ rest) ≡ true
is_relative_to-append [] rest = refl
is_relative_to-append (b ∷ base) rest = rw (beq_self b) (is_relative_to-append base rest)

pub is_relative_to-last :
    (base path : FilePath) (name : Text)
    → is_relative_to base (path ++ name ∷ []) ≡ true
    → (base == path ++ name ∷ []) ≡ false
    → is_relative_to base path ≡ true
is_relative_to-last [] path name h other = refl
is_relative_to-last (b ∷ []) [] name h other = ground arith
is_relative_to-last (b ∷ c ∷ base) [] name h other = ground arith
is_relative_to-last (b ∷ base) (p ∷ path) name h other =
    ground (arith, is_relative_to-last base path name)

pub is_relative_to-parent :
    (base path : FilePath)
    → is_relative_to base (parent path) ≡ true
    → is_relative_to base path ≡ true
is_relative_to-parent [] path h = refl
is_relative_to-parent (b ∷ base) [] h = h
is_relative_to-parent (b ∷ base) (p ∷ []) h = ground arith
is_relative_to-parent (b ∷ base) (p ∷ q ∷ ps) h =
    ground (arith, is_relative_to-parent base (q ∷ ps))

pub parent-append :
    (base : FilePath) (r : Text) (rs : FilePath) → parent (base ++ r ∷ rs) ≡ base ++ parent (r ∷ rs)
parent-append [] r rs = refl
parent-append (b ∷ []) r rs = refl
parent-append (b ∷ c ∷ base) r rs = ap (λ q. b ∷ q) (parent-append (c ∷ base) r rs)

pub roots-writes :
    (data_root : FilePath) (role name : Text) (root : Root)
    → Dict.get name (roots data_root role) ≡ some root
    → root.can_write ≡ true
    → ((role == member) ≡ true) × (root.base ≡ wiki_dir data_root)
unfolding roots Dict.get
roots-writes data_root role name root h can =
    let claim : Option Root → Type 0 =
      λ o. o ≡ some root → ((role == member) ≡ true) × (root.base ≡ wiki_dir data_root) in
    if_cases claim (codes "wiki" == name) _ _ (λ _ e. ground (arith, e, can))
      (λ _.
        if_cases claim (codes "people" == name) _ _ (λ _ e. ground (arith, e, can))
          (λ _.
            if_cases claim (codes "shared" == name) _ none (λ _ e. ground (arith, e, can))
              (λ _ e. ground (arith, e))))
      h

-- A path that the call may change is not one that it may not.
pub apart :
    (data_root : FilePath) (role : Text) (call : Call) (target path : FilePath)
    → may_change data_root role call target ≡ true
    → may_change data_root role call path ≡ false
    → (target == path) ≡ false
apart data_root role call target path may may_not = elim (Bool-cases (target == path)) [
  | inr other ↦ other
  | inl same ↦
      let also =
        subst (λ p. may_change data_root role call p ≡ true) (eq_of_beq target path same) may in
      absurd (cc)
]

pub under_wiki :
    (data_root target : FilePath) (root : Root) (rest : FilePath)
    → root.base ≡ wiki_dir data_root
    → target ≡ root.base ++ rest
    → is_relative_to (wiki_dir data_root) target ≡ true
under_wiki data_root target root rest is_wiki is_path =
    subst (λ q. is_relative_to (wiki_dir data_root) q ≡ true)
      (sym (is_path ∙ ap (λ b. b ++ rest) is_wiki))
      (is_relative_to-append (wiki_dir data_root) rest)

pub may_write :
    (data_root : FilePath) (role : Text) (target : FilePath) (root : Root) (rest : FilePath)
    → (role == member) ≡ true
    → root.base ≡ wiki_dir data_root
    → target ≡ root.base ++ rest
    → is_below (journal_root data_root) target ≡ false
    → (role == member
        && is_relative_to (wiki_dir data_root) target
        && not (is_below (journal_root data_root) target))
      ≡ true
may_write data_root role target root rest is_member is_wiki is_path outside =
    let inside = under_wiki data_root target root rest is_wiki is_path in
    rw (is_member, inside, outside) refl

pub not_below :
    (data_root path : FilePath)
    → in_journal data_root path ≡ false
    → is_below (journal_root data_root) path ≡ false
unfolding in_journal
not_below data_root path h = ground (arith, h)
