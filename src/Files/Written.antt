-- ===== src/Files/Written.antt =====
-- What a write that succeeds leaves.
use joshua_ai.Base.{
  ℕ, ◌≤◌, Bool, true, false, ◌&&◌, ◌||◌, Option, some, none, List, [], ◌∷◌, ◌==◌, ℕ_eq, List_eq,
  any, length, if_cases, if_true, ◌≡◌, refl, ◌∙◌, subst, arith, Option-cases, inl, inr, beq_self,
}
use mathlib.Core.Option.{some-injective}
use joshua_ai.Base.Dict
use joshua_ai.Base.Dict.{Dict, keys, get-put}
use joshua_ai.Base.Text.{Text, codes}
use joshua_ai.Paths.{FilePath, Resolved, resolved, refused, index_error, resolve, roots}
use joshua_ai.Files.{
  Volume, Outside, Outcome, failed, crashed, wrote, path_error, bad_mode, is_mode, max_bytes,
  first_failure, checked, is_below, is_dir, exists, atomic_write, landed, written, write_at,
  write_file,
}
use joshua_ai.Files.Below.{first_failure-none}

-- A file of at most 256 KB that holds the text, after what was there where the mode is `append`; with
-- `create` nothing was there.
abbrev pub Left : Outside → Text → Text → Volume → FilePath → ℕ → Volume → Type 0
Left py mode content volume path size after =
    (Dict.get path after ≡ some (written mode (py.encode content) path volume))
    × (size ≡ length (written mode (py.encode content) path volume))
    × (size ≤ max_bytes)
    × ((mode == codes "create" && exists path volume) ≡ false)

abbrev IfWrote : Outside → Text → Text → Volume → Outcome × Volume → Type 0
IfWrote py mode content volume (wrote path size, after) =
    Left py mode content volume path size after
IfWrote py mode content volume _ = Unit

abbrev AllOutcomes : (Outcome → Type 0) → List (Bool × Outcome) → Type 0
AllOutcomes P [] = Unit
AllOutcomes P ((b, outcome) ∷ checks) = P outcome × AllOutcomes P checks

first_failure-AllOutcomes :
    (P : Outcome → Type 0) (checks : List (Bool × Outcome)) (outcome : Outcome)
    → AllOutcomes P checks
    → first_failure checks ≡ some outcome
    → P outcome
unfolding first_failure
first_failure-AllOutcomes P [] outcome all h = ground arith
first_failure-AllOutcomes P ((b, o) ∷ checks) outcome (here, all) h =
    if_cases (λ q. q ≡ some outcome → P outcome) b (some o) (first_failure checks)
      (λ _ e. subst P (some-injective o outcome e) here)
      (λ _ e. first_failure-AllOutcomes P checks outcome all e) h

checked_lem :
    (P : Outcome × Volume → Type 0) (checks : List (Bool × Outcome)) (changed : Outcome × Volume)
    (volume : Volume)
    → AllOutcomes (λ o. P (o, volume)) checks
    → (first_failure checks ≡ none → P changed)
    → P (checked checks changed volume)
unfolding checked
checked_lem P checks changed volume all passed = elim (Option-cases (first_failure checks)) [
  | inl none_fails ↦ rw (none_fails, checked) (passed none_fails)
  | inr (o, stopped) ↦
      rw (stopped, checked) (first_failure-AllOutcomes (λ o. P (o, volume)) checks o all stopped)
]

landed-IfWrote :
    (py : Outside) (mode content : Text) (path : FilePath) (volume : Volume)
    → length (written mode (py.encode content) path volume) ≤ max_bytes
    → (mode == codes "create" && exists path volume) ≡ false
    → IfWrote py mode content volume (
        landed
          (wrote path (length (written mode (py.encode content) path volume)))
          path
          (written mode (py.encode content) path volume)
          volume)
unfolding atomic_write
landed-IfWrote py mode content path volume small new =
    let bytes = written mode (py.encode content) path volume in
    let ended : Option Volume → Outcome × Volume =
      λ o. elim o [ none ↦ (crashed, volume) | some after ↦ (wrote path (length bytes), after) ] in
    if_cases (λ (o : Option Volume). IfWrote py mode content volume (ended o))
      (is_dir path volume || any (λ file. is_below file path) (keys volume)) none
      (some (Dict.put path bytes volume)) (λ _. tt)
      (λ _. (
        get-put path path bytes volume
            ∙ if_true (path == path) (some bytes) (Dict.get path volume) (beq_self path),
        refl,
        small,
        new,
      ))

write_at-IfWrote :
    (py : Outside) (data_root : FilePath) (mode content : Text) (path : FilePath) (volume : Volume)
    → IfWrote py mode content volume (write_at py data_root mode content path volume)
unfolding write_at
write_at-IfWrote py data_root mode content path volume =
    checked_lem (IfWrote py mode content volume) _ _ volume (tt, (tt, (tt, (tt, (tt, tt)))))
      (λ passed.
        let journal = first_failure-none _ _ _ passed in
        let fence = first_failure-none _ _ _ journal.1 in
        let new = first_failure-none _ _ _ fence.1 in
        let dir = first_failure-none _ _ _ new.1 in
        let small = first_failure-none _ _ _ dir.1 in
        landed-IfWrote py mode content path volume (ground (arith, small.0)) new.0)

-- A write that is answered with a path and a size leaves the file of that path with just that size, at
-- most 256 KB: the encoded text, after the bytes that were there where the mode is `append`. With
-- `create` nothing was there before.
pub write_file-Left :
    (py : Outside) (data_root : FilePath) (role name content mode : Text) (volume after : Volume)
    (path : FilePath) (size : ℕ)
    → write_file py data_root role name content mode volume ≡ (wrote path size, after)
    → Left py mode content volume path size after
unfolding write_file
write_file-Left py data_root role name content mode volume after path size h =
    let ended : Resolved → Outcome × Volume = λ r. elim r [
      | refused error ↦ (failed (path_error error), volume)
      | index_error ↦ (crashed, volume)
      | resolved root target ↦ write_at py data_root mode content target volume
    ] in
    let found : (r : Resolved) → IfWrote py mode content volume (ended r) = λ r.
      elim r as (λ r. IfWrote py mode content volume (ended r)) [
        | refused error ↦ tt
        | index_error ↦ tt
        | resolved root target ↦ write_at-IfWrote py data_root mode content target volume
      ] in
    subst (IfWrote py mode content volume) h (
      if_cases (IfWrote py mode content volume) (is_mode mode)
        (ended (resolve py.realpath name (roots data_root role) true)) (failed bad_mode, volume)
        (λ _. found (resolve py.realpath name (roots data_root role) true)) (λ _. tt))
