-- ===== src/Base/Dict.antt =====
-- Python's `dict`, which keeps insertion order: a write to a key that is there keeps its place,
-- a new key goes to the end. Keys are unique (`Distinct`).
use joshua_ai.Base.Equality.{HasEq, ◌==◌, elem, beq_self}
use joshua_ai.Base.Tests.{if◌then◌else◌, is_some}
use joshua_ai.Base.Lists.{length, drop}
use Prim.Native.Nat.{ℕ, zero, suc, ◌+◌, ◌≤◌}
use mathlib.Core.Path.{◌≡◌, refl}
use mathlib.Core.Bool.{Bool, true, false, ◌||◌}
use mathlib.Core.Option.{Option, none, some}
use mathlib.Core.List.{List, [], ◌∷◌, ◌++◌}
use native.Mathlib.Omega.{arith}

abbrev pub Dict {ℓ κ} : Type ℓ → Type κ → Type (ℓ ⊔ κ)
Dict K V = List (K × V)

module _ {ℓ κ} {K : Type ℓ} {V : Type κ} where
  -- `list(d.values())`
  abbrev pub values : Dict K V → List V
  values [] = []
  values ((k, v) ∷ d) = v ∷ values d

  abbrev pub keys : Dict K V → List K
  keys [] = []
  keys ((k, v) ∷ d) = k ∷ keys d

module _ {ℓ κ} {K : Type ℓ} {V : Type κ} ⦃e : HasEq K⦄ where
  -- `d.get(k)`
  unfoldable pub get : K → Dict K V → Option V
  get k [] = none
  get k ((j, v) ∷ d) = if j == k then some v else get k d

  -- `k in d`
  unfoldable pub has : K → Dict K V → Bool
  unfolding get
  has k d = is_some (get k d)

  -- `d[k] = v`
  unfoldable pub put : K → V → Dict K V → Dict K V
  put k v [] = (k, v) ∷ []
  put k v ((j, w) ∷ d) = if j == k then (j, v) ∷ d else (j, w) ∷ put k v d

  -- `d.pop(k, None)`
  unfoldable pub remove : K → Dict K V → Dict K V
  remove k [] = []
  remove k ((j, w) ∷ d) = if j == k then d else (j, w) ∷ remove k d

  -- No key stands twice.
  abbrev pub Distinct : Dict K V → Type 0
  Distinct [] = Unit
  Distinct ((k, v) ∷ d) = (elem k (keys d) ≡ false) × Distinct d

module _ {ℓ κ} {K : Type ℓ} {V : Type κ} ⦃e : HasEq K⦄ where
  pub get-put :
      (k j : K) (v : V) (d : Dict K V) → get j (put k v d) ≡ (if k == j then some v else get j d)
  unfolding get put
  get-put k j v [] = refl
  get-put k j v ((i, w) ∷ d) =
      ground (arith, e.same_iff k j, e.same_iff i k, e.same_iff i j, get-put k j v d)

  pub has-put : (k j : K) (v : V) (d : Dict K V) → has j (put k v d) ≡ (k == j || has j d)
  unfolding has
  has-put k j v d = ground (arith, get-put k j v d)

  pub has-put_self : (k : K) (v : V) (d : Dict K V) → has k (put k v d) ≡ true
  has-put_self k v d = rw (has-put k k v d, beq_self k)

  pub length-put-le : (k : K) (v : V) (d : Dict K V) → length (put k v d) ≤ length d + 1
  unfolding put
  length-put-le k v [] = omega arith
  length-put-le k v ((j, w) ∷ d) = ground (arith, length-put-le k v d)

  pub length-put_old :
      (k : K) (v : V) (d : Dict K V) → has k d ≡ true → length (put k v d) ≡ length d
  unfolding put has
  length-put_old k v [] h = cc
  length-put_old k v ((j, w) ∷ d) h = ground (arith, length-put_old k v d)

  -- A key that is not there goes to the end.
  pub put_new : (k : K) (v : V) (d : Dict K V) → has k d ≡ false → put k v d ≡ d ++ (k, v) ∷ []
  unfolding put has
  put_new k v [] h = refl
  put_new k v ((j, w) ∷ d) h = ground (arith, put_new k v d)

  pub has-elem : (k : K) (d : Dict K V) → has k d ≡ elem k (keys d)
  unfolding has
  has-elem k [] = refl
  has-elem k ((j, w) ∷ d) = ground (arith, has-elem k d)

  elem-keys-put :
      (k j : K) (v : V) (d : Dict K V) → elem j (keys (put k v d)) ≡ (k == j || elem j (keys d))
  unfolding put
  elem-keys-put k j v [] = refl
  elem-keys-put k j v ((i, w) ∷ d) =
      ground (arith, e.same_iff k j, e.same_iff i k, e.same_iff i j, elem-keys-put k j v d)

  pub put-Distinct : (k : K) (v : V) (d : Dict K V) → Distinct d → Distinct (put k v d)
  unfolding put
  put-Distinct k v [] h = (refl, tt)
  put-Distinct k v ((j, w) ∷ d) h =
      ground (arith, e.same_iff k j, e.same_iff j k, elem-keys-put k j v d, put-Distinct k v d)

  pub get-remove_other : (k j : K) (d : Dict K V) → (k == j) ≡ false → get j (remove k d) ≡ get j d
  unfolding get remove
  get-remove_other k j [] other = refl
  get-remove_other k j ((i, w) ∷ d) other =
      ground (arith, e.same_iff k j, e.same_iff i k, e.same_iff i j, get-remove_other k j d)

  elem-keys-remove :
      (k j : K) (d : Dict K V) → elem j (keys d) ≡ false → elem j (keys (remove k d)) ≡ false
  unfolding remove
  elem-keys-remove k j [] h = h
  elem-keys-remove k j ((i, w) ∷ d) h = ground (arith, elem-keys-remove k j d)

  pub remove-Distinct : (k : K) (d : Dict K V) → Distinct d → Distinct (remove k d)
  unfolding remove
  remove-Distinct k [] h = tt
  remove-Distinct k ((j, w) ∷ d) h = ground (arith, elem-keys-remove k j d, remove-Distinct k d)

  pub drop-Distinct : (n : ℕ) (d : Dict K V) → Distinct d → Distinct (drop n d)
  drop-Distinct zero d h = h
  drop-Distinct (suc n) [] h = h
  drop-Distinct (suc n) ((k, v) ∷ d) h = drop-Distinct n d h.1

  get_absent : (k : K) (d : Dict K V) → elem k (keys d) ≡ false → get k d ≡ none
  unfolding get
  get_absent k [] h = refl
  get_absent k ((j, w) ∷ d) h = ground (arith, get_absent k d)

  pub get-remove :
      (k j : K) (d : Dict K V)
      → Distinct d
      → get j (remove k d) ≡ (if k == j then none else get j d)
  unfolding get remove
  get-remove k j [] h = ground arith
  get-remove k j ((i, w) ∷ d) h =
      ground
        (arith, e.same_iff k j, e.same_iff i k, e.same_iff i j, get-remove k j d, get_absent j d)
