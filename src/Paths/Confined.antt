-- ===== src/Paths/Confined.antt =====
-- What a resolved path is confined to.
use joshua_ai.Base.{
  Bool, true, false, Option, some, none, List, [], ◌∷◌, ◌++◌, ◌==◌, ℕ_eq, List_eq, ◌≡◌, refl, arith,
  any, if_cases, subst, ◌≢◌,
}
use joshua_ai.Base.Dict
use joshua_ai.Base.Dict.{Dict}
use joshua_ai.Base.Text.{Text, codes, strip, starts_with}
use joshua_ai.Paths.{
  FilePath, Root, roots, member, resolved, refused, hidden, dot_dot, parts_of, is_md,
  is_relative_to, contain, guard_write, in_root, resolve_parts, resolve,
}

module _ (realpath : FilePath → FilePath) where
  -- The path is the root's base and components none of which is hidden, its real path lies in the
  -- real base, and a write is to a root that takes writes, and to a `.md` file where the root asks.
  abbrev pub IsConfined : Dict Text Root → Bool → Root → FilePath → Type 0
  IsConfined root_set write root candidate =
      (name : Text) × (rest : List Text) × (Dict.get name root_set ≡ some root)
      × (candidate ≡ root.base ++ rest)
      × (any (λ part. part == codes "..") (name ∷ rest) ≡ false)
      × (any (λ part. starts_with (codes ".") part) rest ≡ false)
      × (is_relative_to (realpath root.base) (realpath candidate) ≡ true)
      × (write ≡ true → root.can_write ≡ true)
      × (write ≡ true → root.md_only ≡ true → is_md candidate ≡ true)

  guard_write_lem :
      (root root' : Root) (candidate candidate' : FilePath) (write : Bool)
      → guard_write realpath root candidate write ≡ resolved root' candidate'
      → (root ≡ root')
        × (candidate ≡ candidate')
        × (is_relative_to (realpath root.base) (realpath candidate) ≡ true)
        × (write ≡ true → root.can_write ≡ true)
        × (write ≡ true → root.md_only ≡ true → is_md candidate ≡ true)
  unfolding guard_write contain
  guard_write_lem root root' candidate candidate' write h =
      (ground arith, ground arith, ground arith, (λ w. ground arith), (λ w m. ground arith))

  in_root-IsConfined :
      (root_set : Dict Text Root) (o : Option Root) (name : Text) (rest : List Text) (write : Bool)
      (root : Root) (candidate : FilePath)
      → Dict.get name root_set ≡ o
      → any (λ part. part == codes "..") (name ∷ rest) ≡ false
      → in_root realpath o name rest write ≡ resolved root candidate
      → IsConfined root_set write root candidate
  unfolding in_root
  in_root-IsConfined root_set none name rest write root candidate e plain h = absurd (ground arith)
  in_root-IsConfined root_set (some r) name rest write root candidate e plain h =
      if_cases (λ x. x ≡ resolved root candidate → IsConfined root_set write root candidate)
        (any (λ part. starts_with (codes ".") part) rest) (refused hidden)
        (guard_write realpath r (r.base ++ rest) write) (λ _ bad. cc)
        (λ shown ok.
          let (same, path, inside, writes, md) =
            guard_write_lem r root (r.base ++ rest) candidate write ok in
          subst (λ q. IsConfined root_set write q candidate) same
            (subst (λ p. IsConfined root_set write r p) path
              (name, rest, e, refl, plain, shown, inside, writes, md)))
        h

  parts-IsConfined :
      (root_set : Dict Text Root) (parts : List Text) (write : Bool) (root : Root)
      (candidate : FilePath)
      → resolve_parts realpath root_set parts write ≡ resolved root candidate
      → IsConfined root_set write root candidate
  unfolding resolve_parts
  parts-IsConfined root_set [] write root candidate h = cc
  parts-IsConfined root_set (name ∷ rest) write root candidate h =
      if_cases (λ x. x ≡ resolved root candidate → IsConfined root_set write root candidate)
        (any (λ part. part == codes "..") (name ∷ rest)) (refused dot_dot)
        (in_root realpath (Dict.get name root_set) name rest write) (λ _ bad. cc)
        (λ plain ok.
          in_root-IsConfined root_set (Dict.get name root_set) name rest write root candidate refl
            plain ok)
        h

  -- A path that resolves is confined: it lies in a root of the set, by its components and by its
  -- real path, and a write is one that the root allows.
  pub resolve-IsConfined :
      (path : Text) (root_set : Dict Text Root) (write : Bool) (root : Root) (candidate : FilePath)
      → resolve realpath path root_set write ≡ resolved root candidate
      → IsConfined root_set write root candidate
  unfolding resolve
  resolve-IsConfined path root_set write root candidate h =
      parts-IsConfined root_set (parts_of (strip path)) write root candidate (ground arith)

  guest-Reads :
      (data_root : FilePath) (role name : Text) (root : Root)
      → (role == member) ≡ false
      → Dict.get name (roots data_root role) ≡ some root
      → root.can_write ≡ false
  unfolding roots Dict.get
  guest-Reads data_root role name root guest h =
      if_cases (λ o. o ≡ some root → root.can_write ≡ false) (codes "wiki" == name) _ _
        (λ _ e. ground arith)
        (λ _ more.
          if_cases (λ o. o ≡ some root → root.can_write ≡ false) (codes "people" == name) _ _
            (λ _ e. ground arith)
            (λ _ more.
              if_cases (λ o. o ≡ some root → root.can_write ≡ false) (codes "shared" == name) _ none
                (λ _ e. ground arith) (λ _ e. cc) more)
            more)
        h

  -- A request whose role is not `member` writes nothing: no path resolves for writing.
  pub resolve-roots :
      (path role : Text) (data_root : FilePath) (root : Root) (candidate : FilePath)
      → (role == member) ≡ false
      → resolve realpath path (roots data_root role) true ≢ resolved root candidate
  resolve-roots path role data_root root candidate guest h =
      let (name, rest, found, is_path, plain, shown, inside, writes, md) =
        resolve-IsConfined path (roots data_root role) true root candidate h in
      let reads = guest-Reads data_root role name root guest found in
      let can = writes refl in absurd (cc)
