-- ===== src/Ranking/Tests.antt =====
-- Three pages and a cap of one result each, with natural numbers for the scores.
use joshua_ai.Base.{
  ℕ, ◌+◌, ◌*◌, ◌/◌, ◌≤◌, true, some, none, List, [], ◌∷◌, ◌≡◌, refl, map, ltb, take, String,
}
use joshua_ai.Base.Dict
use joshua_ai.Base.Text.{Text, codes}
use joshua_ai.Ranking.{
  Floats, Query, KbChunk, Scored, Key, recency_bonus, score_all, comes_before, insert, sort, pick,
  rank_chunks,
}
use joshua_ai.Ranking.Capped.{tally, capped, rank_chunks-capped}

program : Unit {0}
unfolding Dict.get Dict.put recency_bonus score_all comes_before insert sort pick rank_chunks
program = tt

-- Hundredths, without the decay.
abbrev floats : Floats
floats = record {
  F = ℕ;
  of_nat = λ n. n * 100;
  half = 50;
  hundredth = 1;
  add = λ a b. a + b;
  mul = λ a b. a * b / 100;
  div = λ a b. a * 100 / b;
  pow = λ a b. 100;
  lt = ltb;
}

abbrev chunk : String → ℕ → ℕ → String → KbChunk floats
chunk path index sim kind = record {
  person_id = none;
  source = codes "files";
  kind = codes kind;
  path = codes path;
  chunk_index = index;
  similarity = some sim;
  doc_date = some 10;
}

abbrev query : Query floats
query = record {
  limit = 2;
  min_sim = 40;
  today = 12;
  temporal_kinds = codes "journal" ∷ [];
  bonus = 10;
  half_life_days = 1400;
  prefer_recent = true;
  per_doc_cap = 1;
}

abbrev chunks : List (KbChunk floats)
chunks =
    chunk "a" 0 70 "wiki"
    ∷ chunk "a" 1 69 "wiki"
    ∷ chunk "b" 0 60 "journal"
    ∷ chunk "c" 0 30 "journal"
    ∷ chunk "d" 0 41 "wiki"
    ∷ []

ranked :
    map {B = ℕ × Text} (λ (r : Scored floats). (r.0, r.1.path)) (rank_chunks floats query chunks)
    ≡ (80, codes "b") ∷ (70, codes "a") ∷ []
unfolding program
ranked = refl

rank_chunks-capped_example :
    let r = rank_chunks floats query chunks in
    (r ≡ take 2 (capped floats 1 [] (sort floats (score_all floats query chunks))))
    × ((k : Key floats) → tally floats k r ≤ 1)
rank_chunks-capped_example = rank_chunks-capped floats query chunks
