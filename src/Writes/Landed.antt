-- ===== src/Writes/Landed.antt =====
-- The log names the files that a turn wrote, each once, and no other.
use joshua_ai.Base.{
  ap, sym, String_eq, ◌==◌, ◌↔◌, Bool, true, false, ◌||◌, Option, some, none, List, [], ◌∷◌, ◌++◌,
  ◌==◌, List_eq, ℕ_eq, Option_eq, elem, any, if◌then◌else◌, ◌≡◌, refl, arith, subst, ◌∙◌, if_cases,
  Option-cases, inl, inr, eq_of_beq, beq_self, Bool-cases, list_beq_iff,
}
use joshua_ai.Base.Text.{Text}
use joshua_ai.Writes.{ToolCall, path_of, collect, written_paths}
use joshua_ai.Writes.Wrote.{Wrote, path_of-Wrote, Wrote-path_of}

-- No entry stands twice.
abbrev pub NoRepeat : List Text → Type 0
NoRepeat [] = Unit
NoRepeat (p ∷ ps) = (elem p ps ≡ false) × NoRepeat ps

abbrev pub is_path : Text → Option Text → Bool
is_path p none = false
is_path p (some q) = q == p

elem-append : (p : Text) (ps qs : List Text) → elem p (ps ++ qs) ≡ (elem p ps || elem p qs)
elem-append p [] qs = refl
elem-append p (x ∷ ps) qs = ground (arith, elem-append p ps qs)

append-NoRepeat :
    (ps : List Text) (p : Text) → elem p ps ≡ false → NoRepeat ps → NoRepeat (ps ++ p ∷ [])
append-NoRepeat [] p out once = (refl, tt)
append-NoRepeat (x ∷ ps) p out once = (
  ground (arith, elem-append x ps (p ∷ []), list_beq_iff x p, list_beq_iff p x),
  append-NoRepeat ps p (ground arith) once.1,
)

elem-added :
    (p q : Text) (paths : List Text)
    → elem p (if elem q paths then paths else paths ++ q ∷ []) ≡ (elem p paths || q == p)
elem-added p q paths =
    if_cases (λ ys. elem p ys ≡ (elem p paths || q == p)) (elem q paths) paths (paths ++ q ∷ [])
      (λ there. elim (Bool-cases (q == p)) [
        | inl same ↦
            let equal : q ≡ p = eq_of_beq q p same in
            let here : elem p paths ≡ true = subst (λ r. elem r paths ≡ true) equal there in
            ground arith
        | inr different ↦ ground arith
      ])
      (λ _. elem-append p paths (q ∷ []) ∙ ground arith)

is_path-some : (p : Text) (o : Option Text) → is_path p o ≡ true → o ≡ some p
is_path-some p none h = ground (arith, h)
is_path-some p (some q) h = ap some (eq_of_beq q p h)

module _ (fromisoformat : Text → Option Text) (today : Option Text) where
  collect-elem :
      (p : Text) (calls : List ToolCall) (paths : List Text)
      → elem p (collect fromisoformat today calls paths)
        ≡ (elem p paths || any (λ call. is_path p (path_of fromisoformat today call)) calls)
  unfolding collect
  collect-elem p [] paths = ground arith
  collect-elem p (call ∷ calls) paths = elim (Option-cases (path_of fromisoformat today call)) [
    | inl nothing ↦ rw (nothing, collect) (collect-elem p calls paths)
    | inr (q, written) ↦
        rw (written, collect)
          (collect-elem p calls (if elem q paths then paths else paths ++ q ∷ [])
            ∙ ground (arith, elem-added p q paths))
  ]

  collect-NoRepeat :
      (calls : List ToolCall) (paths : List Text)
      → NoRepeat paths
      → NoRepeat (collect fromisoformat today calls paths)
  unfolding collect
  collect-NoRepeat [] paths once = once
  collect-NoRepeat (call ∷ calls) paths once =
      elim (Option-cases (path_of fromisoformat today call)) [
        | inl nothing ↦ rw (nothing, collect) (collect-NoRepeat calls paths once)
        | inr (q, written) ↦
            rw (written, collect)
              (collect-NoRepeat calls (if elem q paths then paths else paths ++ q ∷ []) (
                if_cases NoRepeat (elem q paths) paths (paths ++ q ∷ []) (λ _. once)
                  (λ out. append-NoRepeat paths q out once)))
      ]

  -- One of the calls wrote the path.
  pub data SomeWrote (path : Text) : List ToolCall → Type 0 where
    first :
        (call : ToolCall) (calls : List ToolCall)
        → Wrote fromisoformat today call path
        → SomeWrote path (call ∷ calls)
    later :
        (call : ToolCall) (calls : List ToolCall)
        → SomeWrote path calls
        → SomeWrote path (call ∷ calls)

  any-SomeWrote :
      (path : Text) (calls : List ToolCall)
      → any (λ call. is_path path (path_of fromisoformat today call)) calls ≡ true
      → SomeWrote path calls
  any-SomeWrote path [] h = ground (arith, h)
  any-SomeWrote path (call ∷ calls) h =
      elim (Bool-cases (is_path path (path_of fromisoformat today call))) [
        | inl here ↦ first call calls (
            path_of-Wrote fromisoformat today call path
              (is_path-some path (path_of fromisoformat today call) here))
        | inr elsewhere ↦ later call calls (any-SomeWrote path calls (ground (arith, h, elsewhere)))
      ]

  SomeWrote-any :
      (path : Text) (calls : List ToolCall)
      → SomeWrote path calls
      → any (λ call. is_path path (path_of fromisoformat today call)) calls ≡ true
  SomeWrote-any path _ (first call calls wrote) =
      rw (Wrote-path_of fromisoformat today call path wrote, beq_self path) refl
  SomeWrote-any path _ (later call calls wrote) = ground (arith, SomeWrote-any path calls wrote)

  -- A path is logged exactly when some call of the turn wrote it: a call of `write_file` or
  -- `rename_file` that landed, by its `to`, or by its `path` where it has no `to` that counts as true,
  -- or an entry of the journal that landed, by its slug and its day, today's where it names none. Each
  -- path is logged once.
  pub written_paths_lem :
      (calls : List ToolCall)
      → ((path : Text)
          → (elem path (written_paths fromisoformat today calls) ≡ true) ↔ SomeWrote path calls)
        × NoRepeat (written_paths fromisoformat today calls)
  unfolding written_paths
  written_paths_lem calls = (
    λ path. (
      λ h. any-SomeWrote path calls (sym (collect-elem path calls []) ∙ h),
      λ wrote. collect-elem path calls [] ∙ SomeWrote-any path calls wrote,
    ),
    collect-NoRepeat calls [] tt,
  )
