-- ===== src/Events/Skills.antt =====
-- `_parse_frontmatter`, `append_event_payload` and `SkillRegistry` of core/joshua_core/events.py. The
-- directory of the skills is a function from file names to texts.
use joshua_ai.Base.{
  ℕ, suc, zero, Bool, true, false, ◌&&◌, ◌||◌, Option, some, none, List, [], ◌∷◌, ◌++◌, ◌==◌, ℕ_eq,
  List_eq, is_empty, leb, if◌then◌else◌,
}
use joshua_ai.Base.Dict
use joshua_ai.Base.Dict.{Dict}
use joshua_ai.Base.Text.{Text, codes, strip, lstrip, rstrip, join, cut}
use joshua_ai.Chunks.{splitlines}

pub record Skill : Type 0 where
  pub event_type : Text
  pub destination : Text
  pub prompt : Text
  pub framing : Option Text

abbrev pub Meta : Type 0
Meta = Dict Text Text

abbrev pub marker : Text
marker = codes "---"

abbrev pub is_quote : ℕ → Bool
is_quote c = c == b'"' || c == b'\''

-- A line of the frontmatter; one without a colon is passed over.
unfoldable pub read_pair : Text → Meta → Meta
read_pair line meta = elim (cut b':' line) [
  | none ↦ meta
  | some (key, value) ↦ Dict.put (strip key) (rstrip is_quote (lstrip is_quote (strip value))) meta
]

-- The lines after the first marker: none where no second marker ends the block.
unfoldable pub read_block : Meta → List Text → Option (Meta × Text)
read_block meta [] = none
read_block meta (line ∷ lines) =
    let rest = read_block (read_pair line meta) lines in
    if strip line == marker then some (meta, strip (join (b'\n' ∷ []) lines)) else rest

unfoldable pub parse_frontmatter : Text → Meta × Text
parse_frontmatter text = elim (splitlines text) [
  | [] ↦ ([], strip text)
  | first ∷ lines ↦
      let block : Meta × Text = elim (read_block [] lines) [
        | none ↦ ([], strip text)
        | some r ↦ r
      ] in
      if strip first == marker then block else ([], strip text)
]

-- `_EVENT_TYPE`, whose `$` also stands before a newline at the end.
abbrev pub slug_first : ℕ → Bool
slug_first c = (leb b'a' c && leb c b'z') || (leb b'0' c && leb c b'9')

abbrev pub slug_char : ℕ → Bool
slug_char c = slug_first c || c == b'_' || c == b'-'

unfoldable pub slug_tail : ℕ → Text → Bool
slug_tail left [] = true
slug_tail zero (c ∷ s) = c == b'\n' && is_empty s
slug_tail (suc left) (c ∷ s) = (c == b'\n' && is_empty s) || (slug_char c && slug_tail left s)

unfoldable pub is_event_type : Text → Bool
is_event_type [] = false
is_event_type (c ∷ s) = slug_first c && slug_tail 63 s

abbrev pub get_or_empty : Text → Meta → Text
get_or_empty key meta = elim (Dict.get key meta) [ none ↦ [] | some v ↦ v ]

-- The skill that a file holds.
unfoldable pub skill_of : Text → Text → Option Skill
skill_of event_type text =
    let parsed = parse_frontmatter text in
    let destination = strip (get_or_empty (codes "destination") parsed.0) in
    let framing = get_or_empty (codes "framing") parsed.0 in
    if is_empty destination
    then none
    else some record {
      event_type = event_type;
      destination = destination;
      prompt = parsed.1;
      framing = if is_empty framing then none else some framing;
    }

unfoldable pub get_skill : (Text → Option Text) → Text → Option Skill
get_skill read_text event_type =
    let loaded : Option Skill = elim (read_text (event_type ++ codes ".md")) [
      | none ↦ none
      | some text ↦ skill_of event_type text
    ] in
    if is_event_type event_type then loaded else none

-- `append_event_payload`: none is a missing or empty payload, otherwise its JSON.
unfoldable pub append_event_payload : Text → Option Text → Text
append_event_payload prompt none = prompt
append_event_payload prompt (some block) =
    prompt ++ (codes "\n\n```json\n" ++ (block ++ codes "\n```"))
