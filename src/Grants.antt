-- ===== src/Grants.antt =====
-- core/joshua_core/engine/url_grants.py: the URLs that each conversation may have read. The URL
-- parser (`canonical`) and the regular expression that finds URLs are parameters.
pub mod Given
pub mod Limits
mod Tests
use joshua_ai.Base.{
  ℕ, zero, suc, ◌+◌, ◌≤◌, String, Bool, true, false, not, ◌&&◌, ◌||◌, Option, some, none, List, [],
  ◌∷◌, ◌++◌, ◌==◌, String_eq, leb, length, is_empty, elem, if◌then◌else◌,
}
use joshua_ai.Base.Dict
use joshua_ai.Base.Dict.{Dict}

abbrev pub max_per_conversation : ℕ
max_per_conversation = 64

abbrev pub max_conversations : ℕ
max_conversations = 256

-- The URLs of one conversation by canonical form, and those of every conversation, oldest first.
abbrev pub Held : Type 0
Held = Dict String String

abbrev pub Grants : Type 0
Grants = Dict String Held

-- `while len(d) > n: d.popitem(last=False)`
unfoldable pub trim {ℓ} : {A : Type ℓ} → ℕ → List A → List A
trim n [] = []
trim n (x ∷ xs) = let rest = trim n xs in if leb (length (x ∷ xs)) n then x ∷ xs else rest

-- `OrderedDict.move_to_end`, on a key that is there.
unfoldable pub move_to_end : String → Grants → Grants
move_to_end key d = elim (Dict.get key d) [
  | none ↦ d
  | some held ↦ Dict.remove key d ++ (key, held) ∷ []
]

-- The conversation's URLs, none for a new one.
abbrev pub held_by : String → Grants → Held
held_by conversation_id g = elim (Dict.get conversation_id g) [ none ↦ [] | some held ↦ held ]

-- The conversation as the newest one, made when it is missing.
unfoldable pub touch : String → Grants → Grants
touch conversation_id g =
    let present =
      if Dict.has conversation_id g
      then g
      else trim max_conversations (Dict.put conversation_id [] g) in
    move_to_end conversation_id present

module _ (canonical : String → String) where
  -- The loop of `grant`, with the number of new URLs.
  unfoldable pub add_urls : List String → Held → ℕ × Held
  add_urls [] held = (0, held)
  add_urls (url ∷ urls) held =
      let key = canonical url in
      let skipped = add_urls urls held in
      let added = add_urls urls (trim max_per_conversation (Dict.put key url held)) in
      if key == "" || Dict.has key held then skipped else (suc added.0, added.1)

  unfoldable pub grant : String → List String → Grants → ℕ × Grants
  grant conversation_id urls g =
      let added = add_urls urls (held_by conversation_id g) in
      if conversation_id == "" || is_empty urls
      then (0, g)
      else (added.0, Dict.put conversation_id added.1 (touch conversation_id g))

  unfoldable pub is_granted : String → String → Grants → Bool
  is_granted conversation_id url g = elim (Dict.get conversation_id g) [
    | none ↦ false
    | some held ↦ not (is_empty held) && Dict.has (canonical url) held
  ]

-- `granted`
abbrev pub granted : String → Grants → List String
granted conversation_id g = Dict.values (held_by conversation_id g)

-- `find_urls` on the matches of its pattern, without their trailing punctuation.
unfoldable pub find_urls : List String → List String → List String
find_urls [] found = found
find_urls (url ∷ rest) found =
    let next = if url == "" || elem url found then found else found ++ url ∷ [] in
    find_urls rest next
