-- ===== src/Ranking/Capped.antt =====
-- The last loop of `rank_chunks`, against a description without its counts and its break.
use joshua_ai.Base.{
  ℕ, suc, zero, ◌+◌, ◌-◌, ◌<◌, Bool, true, false, Option, some, List, [], ◌∷◌, ◌==◌, ℕ_eq, List_eq,
  Option_eq, Pair_eq, if◌then◌else◌, if_cases, if_true, if_false, ◌≤◌, leb, ltb, take, ◌≡◌, refl,
  ap, subst, sym, ◌∙◌, arith, eq_of_beq,
}
use joshua_ai.Base.Dict
use joshua_ai.Base.Dict.{Dict}
use joshua_ai.Ranking.{
  or_zero, Floats, Query, KbChunk, Scored, Key, key_of, count, pick, sort, score_all, rank_chunks,
}

-- One result is given even for a limit of 0.
abbrev pub at_least_one : ℕ → ℕ
at_least_one zero = 1
at_least_one (suc n) = suc n

suc_left : (limit : ℕ) → suc (at_least_one limit - 1) ≡ at_least_one limit
suc_left zero = omega arith
suc_left (suc n) = omega arith

abbrev least : ℕ → ℕ → ℕ
least a b = if leb a b then a else b

least_full :
    (held t most : ℕ) → leb most held ≡ true → held ≡ least t most → held ≡ least (suc t) most
least_full held t most full h = ground arith

least_room :
    (held t most : ℕ) → leb most held ≡ false → held ≡ least t most → suc held ≡ least (suc t) most
least_room held t most room h = ground arith

no_room : (held t most : ℕ) → leb most held ≡ true → held ≡ least t most → ltb t most ≡ false
no_room held t most full h = ground arith

more_room : (held t most : ℕ) → leb most held ≡ false → held ≡ least t most → ltb t most ≡ true
more_room held t most room h = ground arith

last_taken : (limit taken : ℕ) → taken + 1 ≡ at_least_one limit → leb limit (suc taken) ≡ true
last_taken zero taken e = ground arith
last_taken (suc n) taken e = ground arith

not_last :
    (limit taken left : ℕ)
    → taken + suc (suc left) ≡ at_least_one limit
    → leb limit (suc taken) ≡ false
not_last zero taken left e = ground arith
not_last (suc n) taken left e = ground arith

or_zero_if :
    (b : Bool) (n : ℕ) (o : Option ℕ)
    → or_zero (if b then some n else o) ≡ (if b then n else or_zero o)
or_zero_if true n o = refl
or_zero_if false n o = refl

both_if :
    (b : Bool) (v c t most : ℕ)
    → (b ≡ true → v ≡ least (suc t) most)
    → (b ≡ false → c ≡ least t most)
    → (if b then v else c) ≡ least (if b then suc t else t) most
both_if true v c t most yes_ no_ = yes_ refl
both_if false v c t most yes_ no_ = no_ refl

within_take :
    (b : Bool) (u t most : ℕ)
    → (b ≡ true → t < most)
    → u + least (if b then suc t else t) most ≤ most
    → (if b then suc u else u) + least t most ≤ most
within_take true u t most room h = let fits : t < most = room refl in ground arith
within_take false u t most room h = h

within_skip :
    (b : Bool) (u t most : ℕ)
    → u + least (if b then suc t else t) most ≤ most
    → u + least t most ≤ most
within_skip true u t most h = ground arith
within_skip false u t most h = h

module _ (floats : Floats) where
  -- How many of these are of the document.
  abbrev pub tally : Key floats → List (Scored floats) → ℕ
  tally k [] = 0
  tally k (x ∷ xs) = let rest = tally k xs in if key_of floats x.1 == k then suc rest else rest

  -- The entries with fewer than `most` of their document before them, in order.
  abbrev pub capped : ℕ → List (Scored floats) → List (Scored floats) → List (Scored floats)
  capped most earlier [] = []
  capped most earlier (x ∷ xs) =
      let rest = capped most (x ∷ earlier) xs in
      if ltb (tally (key_of floats x.1) earlier) most then x ∷ rest else rest

  -- The counts say of each document how many came before, as far as the most.
  abbrev Counted : ℕ → Dict (Key floats) ℕ → List (Scored floats) → Type 0
  Counted most counts earlier =
      (k : Key floats) → count floats k counts ≡ least (tally k earlier) most

  count-put :
      (j k : Key floats) (n : ℕ) (d : Dict (Key floats) ℕ)
      → count floats k (Dict.put j n d) ≡ (if j == k then n else count floats k d)
  count-put j k n d = ap or_zero (Dict.get-put j k n d) ∙ or_zero_if (j == k) n (Dict.get k d)

  Counted-nil : (most : ℕ) → Counted most [] []
  unfolding Dict.get
  Counted-nil most k = ground arith

  Counted-skip :
      (most : ℕ) (counts : Dict (Key floats) ℕ) (earlier : List (Scored floats)) (x : Scored floats)
      → leb most (count floats (key_of floats x.1) counts) ≡ true
      → Counted most counts earlier
      → Counted most counts (x ∷ earlier)
  Counted-skip most counts earlier x full h k =
      let here : Key floats = key_of floats x.1 in
      let t = tally k earlier in
      if_cases (λ n. count floats k counts ≡ least n most) (here == k) (suc t) t
        (λ same.
          let held : leb most (count floats k counts) ≡ true =
            subst (λ j. leb most (count floats j counts) ≡ true) (eq_of_beq here k same) full in
          least_full (count floats k counts) t most held (h k))
        (λ other. h k)

  Counted-take :
      (most : ℕ) (counts : Dict (Key floats) ℕ) (earlier : List (Scored floats)) (x : Scored floats)
      → leb most (count floats (key_of floats x.1) counts) ≡ false
      → Counted most counts earlier
      → Counted most
          (Dict.put (key_of floats x.1) (suc (count floats (key_of floats x.1) counts)) counts)
          (x ∷ earlier)
  Counted-take most counts earlier x room h k =
      let here : Key floats = key_of floats x.1 in
      let held = count floats here counts in
      count-put here k (suc held) counts
      ∙ both_if (here == k) (suc held) (count floats k counts) (tally k earlier) most
          (λ same.
            least_room held (tally here earlier) most room (h here)
            ∙ ap (λ j. least (suc (tally j earlier)) most) (eq_of_beq here k same))
          (λ other. h k)

  pick-capped :
      (limit most taken left : ℕ) (counts : Dict (Key floats) ℕ) (earlier xs : List (Scored floats))
      → taken + suc left ≡ at_least_one limit
      → Counted most counts earlier
      → pick floats limit most counts taken xs ≡ take (suc left) (capped most earlier xs)
  unfolding pick
  pick-capped limit most taken left counts earlier [] e h = refl
  pick-capped limit most taken left counts earlier (x ∷ xs) e h =
      let here : Key floats = key_of floats x.1 in
      let held = count floats here counts in
      let t = tally here earlier in
      let later = capped most (x ∷ earlier) xs in
      let rest = pick floats limit most (Dict.put here (suc held) counts) (suc taken) xs in
      if_cases (λ r. r ≡ take (suc left) (capped most earlier (x ∷ xs))) (leb most held)
        (pick floats limit most counts taken xs)
        (if leb limit (suc taken) then x ∷ [] else x ∷ rest)
        (λ full.
          pick-capped limit most taken left counts (x ∷ earlier) xs e
            (Counted-skip most counts earlier x full h)
          ∙ ap (take (suc left))
              (sym (if_false (ltb t most) (x ∷ later) later (no_room held t most full (h here)))))
        (λ room.
          let kept = if_true (ltb t most) (x ∷ later) later (more_room held t most room (h here)) in
          let step : (n : ℕ)
              → taken + suc n ≡ at_least_one limit
              → (if leb limit (suc taken) then x ∷ [] else x ∷ rest) ≡ x ∷ take n later =
            λ n.
              elim n
                as (λ m.
                  taken + suc m ≡ at_least_one limit
                  → (if leb limit (suc taken) then x ∷ [] else x ∷ rest) ≡ x ∷ take m later) [
                    | zero ↦ λ e1.
                        if_true (leb limit (suc taken)) (x ∷ []) (x ∷ rest)
                          (last_taken limit taken e1)
                    | suc m ↦ λ e1.
                        if_false (leb limit (suc taken)) (x ∷ []) (x ∷ rest)
                          (not_last limit taken m e1)
                        ∙ ap (λ r. x ∷ r)
                            (pick-capped limit most (suc taken) m (Dict.put here (suc held) counts)
                              (x ∷ earlier) xs (omega (arith, e1))
                              (Counted-take most counts earlier x room h))
                  ] in
          step left e ∙ ap (take (suc left)) (sym kept))

  tally-capped :
      (n most : ℕ) (k : Key floats) (earlier xs : List (Scored floats))
      → tally k (take n (capped most earlier xs)) + least (tally k earlier) most ≤ most
  tally-capped zero most k earlier xs = ground arith
  tally-capped (suc n) most k earlier [] = ground arith
  tally-capped (suc n) most k earlier (x ∷ xs) =
      let here : Key floats = key_of floats x.1 in
      let later = capped most (x ∷ earlier) xs in
      if_cases (λ r. tally k (take (suc n) r) + least (tally k earlier) most ≤ most)
        (ltb (tally here earlier) most) (x ∷ later) later
        (λ room.
          within_take (here == k) (tally k (take n later)) (tally k earlier) most
            (λ same.
              let fits : ltb (tally k earlier) most ≡ true =
                subst (λ j. ltb (tally j earlier) most ≡ true) (eq_of_beq here k same) room in
              ground arith)
            (tally-capped n most k (x ∷ earlier) xs))
        (λ full.
          within_skip (here == k) (tally k (take (suc n) later)) (tally k earlier) most
            (tally-capped (suc n) most k (x ∷ earlier) xs))

  -- The results are what their description says: of the chunks that reach the floor, sorted, those
  -- with fewer than the cap of their document before them, and of these the first, as many as the
  -- limit, one for a limit of 0. So no document has more results than the cap.
  pub rank_chunks-capped :
      (q : Query floats) (cs : List (KbChunk floats))
      → let r = rank_chunks floats q cs in
        (r
          ≡ take
              (at_least_one q.limit)
              (capped q.per_doc_cap [] (sort floats (score_all floats q cs))))
        × ((k : Key floats) → tally k r ≤ q.per_doc_cap)
  unfolding rank_chunks
  rank_chunks-capped q cs =
      let sorted = sort floats (score_all floats q cs) in
      let most = q.per_doc_cap in
      let left = at_least_one q.limit - 1 in
      let some_ : suc left ≡ at_least_one q.limit = suc_left q.limit in
      let same =
        pick-capped q.limit most 0 left [] [] sorted (omega (arith, some_)) (Counted-nil most) in
      (
        same ∙ ap (λ n. take n (capped most [] sorted)) some_,
        λ k.
            subst (λ r. tally k r ≤ most) (sym same)
              (omega (arith, tally-capped (suc left) most k [] sorted)),
      )
