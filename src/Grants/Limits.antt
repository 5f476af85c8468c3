-- ===== src/Grants/Limits.antt =====
-- The bounds on what is held.
use joshua_ai.Base.{
  ℕ, suc, ◌+◌, ◌≤◌, String, true, ◌||◌, List, [], ◌∷◌, ◌++◌, ◌==◌, ◌≡◌, refl, arith, leb, length,
  is_empty, All, if_cases, Option-cases, inl, inr, String_eq, length-append, beq_self, ◌∙◌,
}
use joshua_ai.Base.Dict
use joshua_ai.Base.Dict.{Dict}
use joshua_ai.Grants.{
  Held, Grants, max_per_conversation, max_conversations, trim, move_to_end, held_by, touch,
  add_urls, grant,
}
use joshua_ai.Grants.Given.{trim-All, All-append, put-All, remove-All, get-All, Call, after}

length-trim-le {ℓ} : {A : Type ℓ} (n : ℕ) (xs : List A) → length (trim n xs) ≤ n
unfolding trim
length-trim-le n [] = omega arith
length-trim-le n (x ∷ xs) =
    if_cases (λ ys. length ys ≤ n) (leb (length (x ∷ xs)) n) (x ∷ xs) (trim n xs)
      (λ fits. ground arith) (λ _. length-trim-le n xs)

-- A conversation with no more URLs than it may hold.
abbrev pub Small : String × Held → Type 0
Small entry = length entry.1 ≤ max_per_conversation

-- The new entry stands at the end, so dropping from the front keeps it.
has-append : (c : String) (held : Held) (g : Grants) → Dict.has c (g ++ (c, held) ∷ []) ≡ true
unfolding Dict.has Dict.get
has-append c held [] = rw (beq_self c) refl
has-append c held ((j, w) ∷ g) = ground (arith, has-append c held g)

has-trim :
    (n : ℕ) (c : String) (held : Held) (g : Grants)
    → 1 ≤ n
    → Dict.has c (trim n (g ++ (c, held) ∷ [])) ≡ true
unfolding trim
has-trim n c held [] some_room =
    if_cases (λ (d : Grants). Dict.has c d ≡ true) (leb 1 n) ((c, held) ∷ []) []
      (λ _. has-append c held []) (λ full. absurd (ground arith))
has-trim n c held (entry ∷ g) some_room =
    if_cases (λ (d : Grants). Dict.has c d ≡ true) (leb (length (entry ∷ (g ++ (c, held) ∷ []))) n)
      (entry ∷ (g ++ (c, held) ∷ [])) (trim n (g ++ (c, held) ∷ []))
      (λ _. has-append c held (entry ∷ g)) (λ _. has-trim n c held g some_room)

length-remove :
    (c : String) (g : Grants) → Dict.has c g ≡ true → length (Dict.remove c g) + 1 ≡ length g
unfolding Dict.has Dict.get Dict.remove
length-remove c [] h = cc
length-remove c ((j, w) ∷ g) h = ground (arith, length-remove c g)

move_to_end_lem :
    (c : String) (g : Grants)
    → Dict.has c g ≡ true
    → (length (move_to_end c g) ≡ length g) × (Dict.has c (move_to_end c g) ≡ true)
unfolding move_to_end Dict.has
move_to_end_lem c g h = elim (Option-cases (Dict.get c g)) [
  | inl missing ↦ absurd (ground arith)
  | inr (held, found) ↦
      rw (found, move_to_end)
        (
          length-append (Dict.remove c g) ((c, held) ∷ []) ∙ length-remove c g h,
          has-append c held (Dict.remove c g),
        )
]

touch_lem :
    (c : String) (g : Grants)
    → length g ≤ max_conversations
    → (length (touch c g) ≤ max_conversations) × (Dict.has c (touch c g) ≡ true)
unfolding touch
touch_lem c g h =
    if_cases
      (λ d. (length (move_to_end c d) ≤ max_conversations) × (Dict.has c (move_to_end c d) ≡ true))
      (Dict.has c g) g (trim max_conversations (Dict.put c [] g))
      (λ old. let (same, kept) = move_to_end_lem c g old in (omega arith, kept))
      (λ new.
        let there : Dict.has c (trim max_conversations (Dict.put c [] g)) ≡ true =
          rw (Dict.put_new c [] g new) (has-trim max_conversations c [] g (omega arith)) in
        let (same, kept) = move_to_end_lem c (trim max_conversations (Dict.put c [] g)) there in
        let bound = length-trim-le max_conversations (Dict.put c [] g) in (omega arith, kept))

move_to_end-Small : (c : String) (g : Grants) → All Small g → All Small (move_to_end c g)
unfolding move_to_end
move_to_end-Small c g h = elim (Option-cases (Dict.get c g)) [
  | inl missing ↦ rw (missing, move_to_end) h
  | inr (held, found) ↦
      rw (found, move_to_end)
        (All-append Small (Dict.remove c g) ((c, held) ∷ []) (remove-All Small c g h)
          (get-All Small c held g found h, tt))
]

touch-Small : (c : String) (g : Grants) → All Small g → All Small (touch c g)
unfolding touch
touch-Small c g h =
    if_cases (λ d. All Small (move_to_end c d)) (Dict.has c g) g
      (trim max_conversations (Dict.put c [] g)) (λ _. move_to_end-Small c g h)
      (λ _.
        move_to_end-Small c (trim max_conversations (Dict.put c [] g)) (
          trim-All Small max_conversations (Dict.put c [] g)
            (put-All Small c [] g (omega arith) h)))

held_by-Small :
    (c : String) (g : Grants) → All Small g → length (held_by c g) ≤ max_per_conversation
held_by-Small c g h = elim (Option-cases (Dict.get c g)) [
  | inl missing ↦ rw (missing, held_by) (omega arith)
  | inr (held, found) ↦ rw (found, held_by) (get-All Small c held g found h)
]

module _ (canonical : String → String) where
  add_urls-le :
      (urls : List String) (held : Held)
      → length held ≤ max_per_conversation
      → length (add_urls canonical urls held).1 ≤ max_per_conversation
  unfolding add_urls
  add_urls-le [] held h = h
  add_urls-le (url ∷ urls) held h =
      let held' = trim max_per_conversation (Dict.put (canonical url) url held) in
      if_cases (λ (r : ℕ × Held). length r.1 ≤ max_per_conversation)
        (canonical url == "" || Dict.has (canonical url) held) (add_urls canonical urls held)
        (suc (add_urls canonical urls held').0, (add_urls canonical urls held').1)
        (λ _. add_urls-le urls held h)
        (λ _.
          add_urls-le urls held'
            (length-trim-le max_per_conversation (Dict.put (canonical url) url held)))

  -- No more conversations and no more URLs of one than the limits.
  abbrev pub WithinLimits : Grants → Type 0
  WithinLimits g = (length g ≤ max_conversations) × All Small g

  grant-WithinLimits :
      (c : String) (urls : List String) (g : Grants)
      → WithinLimits g
      → WithinLimits (grant canonical c urls g).1
  unfolding grant
  grant-WithinLimits c urls g (few, small) =
      let held = (add_urls canonical urls (held_by c g)).1 in
      let (touched, there) = touch_lem c g few in
      let same = Dict.length-put_old c held (touch c g) there in
      if_cases (λ (r : ℕ × Grants). WithinLimits r.1) (c == "" || is_empty urls) (0, g)
        ((add_urls canonical urls (held_by c g)).0, Dict.put c held (touch c g)) (λ _. (few, small))
        (λ _. (
          omega arith,
          put-All Small c held (touch c g)
              (add_urls-le urls (held_by c g) (held_by-Small c g small)) (touch-Small c g small),
        ))

  -- Whatever is granted, at most 256 conversations are held, with at most 64 URLs each.
  pub after-WithinLimits : (calls : List Call) → WithinLimits (after canonical calls)
  unfolding after
  after-WithinLimits [] = (omega arith, tt)
  after-WithinLimits ((c, urls) ∷ calls) =
      grant-WithinLimits c urls (after canonical calls) (after-WithinLimits calls)
