-- ===== src/Files/Found.antt =====
-- The search for a free name ends.
use joshua_ai.Base.{
  ℕ, suc, zero, ◌≤◌, ◌<◌, Bool, true, false, not, ◌&&◌, ◌||◌, Option, some, none, List, [], ◌∷◌,
  ◌++◌, ◌==◌, ℕ_eq, List_eq, Option_eq, any, elem, length, keep_if, if◌then◌else◌, if_cases,
  if_true, if_false, ◌≡◌, ◌≢◌, ◌⊎◌, inl, inr, refl, ap, sym, ◌∙◌, subst, arith, Bool-cases,
  eq_of_beq, beq_self,
}
use mathlib.Core.List.{append_cancel_left, append_cancel_right}
use joshua_ai.Base.Dict.{keys, has-elem}
use joshua_ai.Base.Text.{Text, codes}
use joshua_ai.Paths.{FilePath, is_relative_to}
use joshua_ai.Files.{Volume, is_below, is_dir, exists, stem_suffix}
use joshua_ai.Files.FreeName.{numbered, next_free, free_name}

-- A file of the list that stands at the path or below it.
abbrev covered : FilePath → List FilePath → Bool
covered path files = any (λ file. is_relative_to path file) files

is_relative_to_self : (path : FilePath) → is_relative_to path path ≡ true
is_relative_to_self [] = refl
is_relative_to_self (p ∷ path) = rw (beq_self p) (is_relative_to_self path)

at_or_below :
    (path file : FilePath) → (file == path || is_below path file) ≡ is_relative_to path file
at_or_below path file = elim (Bool-cases (file == path)) [
  | inl same ↦
      let here =
        subst (λ f. is_relative_to path f ≡ true) (sym (eq_of_beq file path same))
          (is_relative_to_self path) in
      rw (same, here) refl
  | inr other ↦
      let apart : (path == file) ≡ false = elim (Bool-cases (path == file)) [
        | inr differ ↦ differ
        | inl same ↦
            let e = subst (λ p. (file == p) ≡ false) (eq_of_beq path file same) other in
            let self = beq_self file in absurd (cc)
      ] in
      ground (arith, other, apart)
]

four : (a b c d : Bool) → ((a || b) || (c || d)) ≡ ((a || c) || (b || d))
four true b c d = refl
four false true true d = refl
four false true false d = refl
four false false c d = refl

elem_or_below :
    (path : FilePath) (files : List FilePath)
    → (elem path files || any (λ file. is_below path file) files) ≡ covered path files
elem_or_below path [] = refl
elem_or_below path (file ∷ files) =
    let here = at_or_below path file in
    let rest = elem_or_below path files in
    four (file == path) (elem path files) (is_below path file) (any (λ f. is_below path f) files)
    ∙ ap (λ b. b || (elem path files || any (λ f. is_below path f) files)) here
    ∙ ap (λ b. is_relative_to path file || b) rest

exists-covered :
    (path : FilePath) (volume : Volume) → exists path volume ≡ covered path (keys volume)
unfolding is_dir
exists-covered path volume =
    ap (λ b. b || any (λ file. is_below path file) (keys volume)) (has-elem path volume)
    ∙ elem_or_below path (keys volume)

same_name :
    (dir : FilePath) (a b : Text) (file : FilePath)
    → is_relative_to (dir ++ a ∷ []) file ≡ true
    → is_relative_to (dir ++ b ∷ []) file ≡ true
    → a ≡ b
same_name [] a b [] h k = ground arith
same_name [] a b (f ∷ file) h k =
    let at_a : (a == f) ≡ true = ground (arith, h) in
    let at_b : (b == f) ≡ true = ground (arith, k) in eq_of_beq a f at_a ∙ sym (eq_of_beq b f at_b)
same_name (d ∷ dir) a b [] h k = ground arith
same_name (d ∷ dir) a b (f ∷ file) h k = same_name dir a b file (ground arith) (ground arith)

length-keep_if :
    (P : FilePath → Bool) (files : List FilePath) → length (keep_if P files) ≤ length files
length-keep_if P [] = omega arith
length-keep_if P (f ∷ files) = ground (arith, length-keep_if P files)

length-keep_if-lt :
    (P : FilePath → Bool) (files : List FilePath)
    → any P files ≡ true
    → length (keep_if (λ f. not (P f)) files) < length files
length-keep_if-lt P [] h = ground arith
length-keep_if-lt P (f ∷ files) h =
    ground (arith, length-keep_if-lt P files, length-keep_if (λ f. not (P f)) files)

any-keep_if :
    (P Q : FilePath → Bool) (files : List FilePath)
    → ((f : FilePath) → Q f ≡ true → P f ≡ false)
    → any Q (keep_if (λ f. not (P f)) files) ≡ any Q files
any-keep_if P Q [] apart = refl
any-keep_if P Q (f ∷ files) apart = ground (arith, any-keep_if P Q files apart, apart f)

given : (sha256 : Option Text) → not (sha256 == none) ≡ true → sha256 ≢ none
given none h e = ground arith
given (some sha) h e = ground arith

length-keys : (volume : Volume) → length (keys volume) ≡ length volume
length-keys [] = refl
length-keys ((file, bytes) ∷ volume) = omega (arith, length-keys volume)

module _ (str_of : ℕ → Text) where
  same_number :
      (dir : FilePath) (stem suffix : Text) (i j : ℕ) (file : FilePath)
      → ((a b : ℕ) → str_of a ≡ str_of b → a ≡ b)
      → is_relative_to (numbered str_of dir stem suffix i) file ≡ true
      → is_relative_to (numbered str_of dir stem suffix j) file ≡ true
      → i ≡ j
  same_number dir stem suffix i j file distinct h k =
      let names =
        same_name dir (stem ++ (codes "-" ++ (str_of i ++ suffix)))
          (stem ++ (codes "-" ++ (str_of j ++ suffix))) file h k in
      distinct i j (
        append_cancel_right (str_of i) (str_of j) suffix (
          append_cancel_left (codes "-") (str_of i ++ suffix) (str_of j ++ suffix) (
            append_cancel_left stem (codes "-" ++ (str_of i ++ suffix))
              (codes "-" ++ (str_of j ++ suffix)) names)))

  -- The search over a volume, from a number from which only these files stand in the way.
  next_free-found :
      (dir : FilePath) (stem suffix : Text) (volume : Volume) (fuel counter : ℕ)
      (files : List FilePath)
      → ((a b : ℕ) → str_of a ≡ str_of b → a ≡ b)
      → length files < fuel
      → ((j : ℕ)
          → counter ≤ j
          → exists (numbered str_of dir stem suffix j) volume
            ≡ covered (numbered str_of dir stem suffix j) files)
      → (p : FilePath) × (next_free str_of fuel volume dir stem suffix counter ≡ some p)
        × (exists p volume ≡ false)
  unfolding next_free
  next_free-found dir stem suffix volume zero counter files distinct enough same =
      absurd (omega arith)
  next_free-found dir stem suffix volume (suc fuel) counter files distinct enough same =
      let here = numbered str_of dir stem suffix counter in
      let P : FilePath → Bool = λ f. is_relative_to here f in
      elim (Bool-cases (exists here volume)) [
        | inr free ↦ (
          here,
          if_false (exists here volume) (next_free str_of fuel volume dir stem suffix (suc counter))
              (some here) free,
          free,
        )
        | inl taken ↦
            let fewer = length-keep_if-lt P files (sym (same counter (omega arith)) ∙ taken) in
            let (p, found, free) =
              next_free-found dir stem suffix volume fuel (suc counter)
                (keep_if (λ f. not (P f)) files) distinct (omega arith)
                (λ j later.
                  same j (omega arith)
                  ∙ sym (
                      any-keep_if P (λ f. is_relative_to (numbered str_of dir stem suffix j) f)
                        files
                        (λ f below. elim (Bool-cases (P f)) [
                          | inr apart ↦ apart
                          | inl both ↦
                              let equal =
                                same_number dir stem suffix counter j f distinct both below in
                              absurd (omega arith)
                        ]))) in
            (
              p,
              if_true (exists here volume)
                    (next_free str_of fuel volume dir stem suffix (suc counter)) (some here) taken
                  ∙ found,
              free,
            )
      ]

  -- The search for the name of a copy ends, whatever files there are, where distinct numbers print
  -- differently: with fuel for one more number than there are files it gives a path, at which nothing
  -- stands, or the path of the asked name itself, where the file there has the digest of the copy.
  pub free_name-found :
      (digest_of : FilePath → Option Text) (volume : Volume) (dir : FilePath) (name : Text)
      (sha256 : Option Text)
      → ((a b : ℕ) → str_of a ≡ str_of b → a ≡ b)
      → (p : FilePath) × (free_name str_of digest_of volume dir name sha256 ≡ some p)
        × ((exists p volume ≡ false)
            ⊎ ((p ≡ dir ++ name ∷ []) × (sha256 ≢ none) × (digest_of p ≡ sha256)))
  unfolding free_name
  free_name-found digest_of volume dir name sha256 distinct =
      let candidate = dir ++ name ∷ [] in
      let parted = stem_suffix name in
      let other = next_free str_of (suc (length volume)) volume dir parted.0 parted.1 2 in
      let goal : Option FilePath → Type 0 = λ o.
        (p : FilePath) × (o ≡ some p)
        × ((exists p volume ≡ false)
            ⊎ ((p ≡ candidate) × (sha256 ≢ none) × (digest_of p ≡ sha256))) in
      if_cases goal (not (exists candidate volume)) (some candidate)
        (if not (sha256 == none) && digest_of candidate == sha256 then some candidate else other)
        (λ free. (candidate, refl, inl (ground (arith, free))))
        (λ _.
          if_cases goal (not (sha256 == none) && digest_of candidate == sha256) (some candidate)
            other
            (λ same. (
              candidate,
              refl,
              inr (
                refl,
                given sha256 (ground (arith, same)),
                eq_of_beq (digest_of candidate) sha256 (ground (arith, same)),
              ),
            ))
            (λ _.
              let (p, found, free) =
                next_free-found dir parted.0 parted.1 volume (suc (length volume)) 2 (keys volume)
                  distinct (ground (arith, length-keys volume))
                  (λ j _. exists-covered (numbered str_of dir parted.0 parted.1 j) volume) in
              (p, found, inl free)))
