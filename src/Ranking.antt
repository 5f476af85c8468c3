-- ===== src/Ranking.antt =====
-- The ranking of retrieved chunks: core/joshua_core/memory/ranking.py. The floating-point numbers are
-- a parameter; a date is the number of its day.
pub mod Capped
mod Tests
use joshua_ai.Base.{
  ℕ, suc, zero, ◌+◌, ◌-◌, Bool, true, false, Option, some, none, List, [], ◌∷◌, ◌==◌, ℕ_eq, List_eq,
  Option_eq, Pair_eq, if◌then◌else◌, leb, ltb, elem, ◌&&◌,
}
use joshua_ai.Base.Dict
use joshua_ai.Base.Dict.{Dict}
use joshua_ai.Base.Text.{Text}

pub record Floats : Type 1 where
  pub F : Type 0
  pub of_nat : ℕ → F
  pub half : F
  pub hundredth : F
  pub add : F → F → F
  pub mul : F → F → F
  pub div : F → F → F
  pub pow : F → F → F
  pub lt : F → F → Bool

abbrev pub or_zero : Option ℕ → ℕ
or_zero none = 0
or_zero (some n) = n

module _ (floats : Floats) where
  pub record KbChunk : Type 0 where
    pub person_id : Option Text
    pub source : Text
    pub kind : Text
    pub path : Text
    pub chunk_index : ℕ
    pub similarity : Option floats.F
    pub doc_date : Option ℕ

  -- What a caller of `rank_chunks` asks for.
  pub record Query : Type 0 where
    pub limit : ℕ
    pub min_sim : floats.F
    pub today : ℕ
    pub temporal_kinds : List Text
    pub bonus : floats.F
    pub half_life_days : floats.F
    pub prefer_recent : Bool
    pub per_doc_cap : ℕ

  -- `max(a, b)` on floats: the second only where it is greater.
  abbrev pub max_float : floats.F → floats.F → floats.F
  max_float a b = if floats.lt a b then b else a

  unfoldable pub recency_bonus : Query → KbChunk → floats.F
  recency_bonus q c = elim c.doc_date [
    | none ↦ floats.of_nat 0
    | some day ↦
        let age_days = floats.of_nat (q.today - day) in
        let scale = if q.prefer_recent then floats.of_nat 2 else floats.of_nat 1 in
        let decay =
          floats.pow floats.half
            (floats.div age_days (max_float q.half_life_days floats.hundredth)) in
        if elem c.kind q.temporal_kinds
        then floats.mul (floats.mul q.bonus scale) decay
        else floats.of_nat 0
  ]

  abbrev pub Scored : Type 0
  Scored = floats.F × KbChunk

  -- `c.similarity or 0.0`
  abbrev pub similarity_of : KbChunk → floats.F
  similarity_of c = elim c.similarity [ none ↦ floats.of_nat 0 | some s ↦ s ]

  unfoldable pub score_all : Query → List KbChunk → List Scored
  score_all q [] = []
  score_all q (c ∷ cs) =
      let rest = score_all q cs in
      let sim = similarity_of c in
      if floats.lt sim q.min_sim then rest else (floats.add sim (recency_bonus q c), c) ∷ rest

  abbrev pub text_lt : Text → Text → Bool
  text_lt [] [] = false
  text_lt [] (d ∷ t) = true
  text_lt (c ∷ s) [] = false
  text_lt (c ∷ s) (d ∷ t) = let rest = text_lt s t in if c == d then rest else ltb c d

  -- The order of the sort's keys, a score by its negative.
  unfoldable pub comes_before : Scored → Scored → Bool
  comes_before (a, c) (b, d) =
      if floats.lt b a
      then true
      else if floats.lt a b
      then false
      else if c.source == d.source
      then (if c.path == d.path then ltb c.chunk_index d.chunk_index else text_lt c.path d.path)
      else text_lt c.source d.source

  -- `list.sort`, which keeps the order of equals.
  unfoldable pub insert : Scored → List Scored → List Scored
  insert x [] = x ∷ []
  insert x (y ∷ ys) = let rest = insert x ys in if comes_before y x then y ∷ rest else x ∷ y ∷ ys

  unfoldable pub sort : List Scored → List Scored
  sort [] = []
  sort (x ∷ xs) = insert x (sort xs)

  -- A document: its person, its source and its path.
  abbrev pub Key : Type 0
  Key = (Option Text × Text) × Text

  abbrev pub key_of : KbChunk → Key
  key_of c = ((c.person_id, c.source), c.path)

  -- `counts.get(key, 0)`
  abbrev pub count : Key → Dict Key ℕ → ℕ
  count k counts = or_zero (Dict.get k counts)

  -- The last loop, with the results so far counted.
  unfoldable pub pick : ℕ → ℕ → Dict Key ℕ → ℕ → List Scored → List Scored
  pick limit most counts taken [] = []
  pick limit most counts taken (x ∷ xs) =
      let key = key_of x.1 in
      let held = count key counts in
      let skipped = pick limit most counts taken xs in
      let rest = pick limit most (Dict.put key (suc held) counts) (suc taken) xs in
      if leb most held then skipped else if leb limit (suc taken) then x ∷ [] else x ∷ rest

  unfoldable pub rank_chunks : Query → List KbChunk → List Scored
  rank_chunks q cs = pick q.limit q.per_doc_cap [] 0 (sort (score_all q cs))
