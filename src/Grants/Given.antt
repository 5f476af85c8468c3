-- ===== src/Grants/Given.antt =====
-- Where a granted URL comes from.
use joshua_ai.Base.{
  ℕ, suc, String, Bool, true, false, ◌&&◌, ◌||◌, some, List, [], ◌∷◌, ◌++◌, ◌==◌, String_eq, leb,
  length, is_empty, All, any, arith, ◌≡◌, refl, if_cases, All-imp, Option-cases, inl, inr, beq_self,
  eq_of_beq, subst, sym,
}
use joshua_ai.Base.Dict
use joshua_ai.Base.Dict.{Dict}
use joshua_ai.Grants.{
  Held, Grants, trim, move_to_end, held_by, touch, add_urls, grant, is_granted, max_conversations,
  max_per_conversation,
}

module _ {ℓ κ} {A : Type ℓ} (P : A → Type κ) where
  pub trim-All : (n : ℕ) (xs : List A) → All P xs → All P (trim n xs)
  unfolding trim
  trim-All n [] h = h
  trim-All n (x ∷ xs) h =
      if_cases (All P) (leb (length (x ∷ xs)) n) (x ∷ xs) (trim n xs) (λ _. h)
        (λ _. trim-All n xs h.1)

  pub All-append : (xs ys : List A) → All P xs → All P ys → All P (xs ++ ys)
  All-append [] ys h k = k
  All-append (x ∷ xs) ys h k = (h.0, All-append xs ys h.1 k)

module _ {κ} {V : Type 0} (P : String × V → Type κ) where
  pub put-All :
      (k : String) (v : V) (d : Dict String V) → P (k, v) → All P d → All P (Dict.put k v d)
  unfolding Dict.put
  put-All k v [] p h = (p, tt)
  put-All k v ((j, w) ∷ d) p h =
      if_cases (All P) (j == k) ((j, v) ∷ d) ((j, w) ∷ Dict.put k v d)
        (λ same. (subst (λ i. P (i, v)) (sym (eq_of_beq j k same)) p, h.1))
        (λ _. (h.0, put-All k v d p h.1))

  pub remove-All : (k : String) (d : Dict String V) → All P d → All P (Dict.remove k d)
  unfolding Dict.remove
  remove-All k [] h = h
  remove-All k ((j, w) ∷ d) h =
      if_cases (All P) (j == k) d ((j, w) ∷ Dict.remove k d) (λ _. h.1)
        (λ _. (h.0, remove-All k d h.1))

  pub get-All :
      (k : String) (v : V) (d : Dict String V) → Dict.get k d ≡ some v → All P d → P (k, v)
  unfolding Dict.get
  get-All k v [] e h = cc
  get-All k v ((j, w) ∷ d) e h =
      if_cases (λ o. o ≡ some v → P (k, v)) (j == k) (some w) (Dict.get k d)
        (λ same found.
          let keys_equal : j ≡ k = eq_of_beq j k same in
          let values_equal : w ≡ v = cc in
          subst (λ i. P (i, v)) keys_equal (subst (λ x. P (j, x)) values_equal h.0))
        (λ _ found. get-All k v d found h.1) e

-- A call of `grant`: a conversation and its URLs.
abbrev pub Call : Type 0
Call = String × List String

module _ (canonical : String → String) where
  -- The grants after some calls, the latest first.
  unfoldable pub after : List Call → Grants
  after [] = []
  after ((conversation_id, urls) ∷ calls) = (grant canonical conversation_id urls (after calls)).1

  -- Some call named the conversation and a URL with this canonical form.
  unfoldable pub was_given : String → String → List Call → Bool
  was_given conversation_id key [] = false
  was_given conversation_id key ((c, urls) ∷ calls) =
      c == conversation_id && any (λ url. canonical url == key) urls
      || was_given conversation_id key calls

  abbrev Kept : List Call → String → String × String → Type 0
  Kept calls c entry = was_given c entry.0 calls ≡ true

  abbrev HeldFrom : List Call → String → Held → Type 0
  HeldFrom calls c held = All (Kept calls c) held

  abbrev Entry : List Call → String × Held → Type 0
  Entry calls entry = HeldFrom calls entry.0 entry.1

  abbrev From : List Call → Grants → Type 0
  From calls g = All (Entry calls) g

  was_given_later :
      (c key : String) (call : Call) (calls : List Call)
      → was_given c key calls ≡ true
      → was_given c key (call ∷ calls) ≡ true
  unfolding was_given
  was_given_later c key (d, urls) calls h = ground arith

  later-From : (call : Call) (calls : List Call) (g : Grants) → From calls g → From (call ∷ calls) g
  later-From call calls g =
      All-imp g (λ entry. All-imp entry.1 (λ kept. was_given_later entry.0 kept.0 call calls))

  held_by-From :
      (calls : List Call) (c : String) (g : Grants) → From calls g → HeldFrom calls c (held_by c g)
  held_by-From calls c g h = elim (Option-cases (Dict.get c g)) [
    | inl missing ↦ rw (missing, held_by) tt
    | inr (held, found) ↦ rw (found, held_by) (get-All (Entry calls) c held g found h)
  ]

  move_to_end-From :
      (calls : List Call) (c : String) (g : Grants) → From calls g → From calls (move_to_end c g)
  unfolding move_to_end
  move_to_end-From calls c g h = elim (Option-cases (Dict.get c g)) [
    | inl missing ↦ rw (missing, move_to_end) h
    | inr (held, found) ↦
        rw (found, move_to_end)
          (All-append (Entry calls) (Dict.remove c g) ((c, held) ∷ [])
            (remove-All (Entry calls) c g h) (get-All (Entry calls) c held g found h, tt))
  ]

  touch-From : (calls : List Call) (c : String) (g : Grants) → From calls g → From calls (touch c g)
  unfolding touch
  touch-From calls c g h = move_to_end-From calls c _ (
      if_cases (From calls) (Dict.has c g) g (trim max_conversations (Dict.put c [] g)) (λ _. h)
        (λ _.
          trim-All (Entry calls) max_conversations (Dict.put c [] g)
            (put-All (Entry calls) c [] g tt h)))

  add_urls-From :
      (calls : List Call) (c : String) (urls : List String) (held : Held)
      → All (λ url. was_given c (canonical url) calls ≡ true) urls
      → HeldFrom calls c held
      → HeldFrom calls c (add_urls canonical urls held).1
  unfolding add_urls
  add_urls-From calls c [] held given h = h
  add_urls-From calls c (url ∷ urls) held given h =
      let held' = trim max_per_conversation (Dict.put (canonical url) url held) in
      if_cases (λ (r : ℕ × Held). HeldFrom calls c r.1)
        (canonical url == "" || Dict.has (canonical url) held) (add_urls canonical urls held)
        (suc (add_urls canonical urls held').0, (add_urls canonical urls held').1)
        (λ _. add_urls-From calls c urls held given.1 h)
        (λ _. add_urls-From calls c urls held' given.1 (
          trim-All (Kept calls c) max_per_conversation (Dict.put (canonical url) url held)
            (put-All (Kept calls c) (canonical url) url held given.0 h)))

  any_self :
      (urls : List String) → All (λ url. any (λ u. canonical u == canonical url) urls ≡ true) urls
  any_self [] = tt
  any_self (x ∷ urls) = (
    ground (arith, beq_self (canonical x)),
    All-imp urls (λ url found. ground arith) (any_self urls),
  )

  grant-From :
      (calls : List Call) (c : String) (urls : List String) (g : Grants)
      → From calls g
      → From ((c, urls) ∷ calls) (grant canonical c urls g).1
  unfolding grant was_given
  grant-From calls c urls g h =
      let now = (c, urls) ∷ calls in
      let old = later-From (c, urls) calls g h in
      let given = All-imp urls (λ url found. named url found) (any_self urls) in
      if_cases (λ (r : ℕ × Grants). From now r.1) (c == "" || is_empty urls) (0, g)
        (
          (add_urls canonical urls (held_by c g)).0,
          Dict.put c (add_urls canonical urls (held_by c g)).1 (touch c g),
        )
        (λ _. old)
        (λ _.
          put-All (Entry now) c (add_urls canonical urls (held_by c g)).1 (touch c g)
            (add_urls-From now c urls (held_by c g) given (held_by-From now c g old))
            (touch-From now c g old))
    where
      named :
          (url : String)
          → any (λ u. canonical u == canonical url) urls ≡ true
          → was_given c (canonical url) ((c, urls) ∷ calls) ≡ true
      named url found = rw (beq_self c, found) refl

  after-From : (calls : List Call) → From calls (after calls)
  unfolding after
  after-From [] = tt
  after-From ((c, urls) ∷ calls) = grant-From calls c urls (after calls) (after-From calls)

  -- A URL is granted to a conversation only if some call of `grant` for that conversation held a
  -- URL with the same canonical form, however many calls for any conversations were made.
  pub is_granted-was_given :
      (calls : List Call) (c url : String)
      → is_granted canonical c url (after calls) ≡ true
      → was_given c (canonical url) calls ≡ true
  unfolding is_granted Dict.has
  is_granted-was_given calls c url h = elim (Option-cases (Dict.get c (after calls))) [
    | inl missing ↦ absurd (ground arith)
    | inr (held, found) ↦
        let from = get-All (Entry calls) c held (after calls) found (after-From calls) in
        let has_key : Dict.has (canonical url) held ≡ true = ground arith in
        elim (Option-cases (Dict.get (canonical url) held)) [
          | inl absent ↦ absurd (ground arith)
          | inr (original, present) ↦
              get-All (Kept calls c) (canonical url) original held present from
        ]
  ]
