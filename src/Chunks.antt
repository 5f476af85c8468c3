-- ===== src/Chunks.antt =====
-- The retrieval chunks of a document: core/joshua_core/memory/chunker.py. A text is its code points,
-- so the regular expressions `\n\s*\n` and `^(#{1,3})\s+(.*?)\s*#*\s*$` are written out.
pub mod Markdown
pub mod Lines
pub mod Ink
pub mod Paragraphs
pub mod Placed
pub mod Kept
mod Tests
use joshua_ai.Base.{
  ℕ, ◌+◌, ◌-◌, suc, zero, Bool, true, false, not, ◌&&◌, ◌||◌, Option, some, none, List, [], ◌∷◌,
  ◌++◌, ◌==◌, List_eq, ℕ_eq, map, is_empty, length, leb, ltb, keep_if, drop, if◌then◌else◌, String,
}
use joshua_ai.Base.Text.{Text, codes, is_space, strip, lstrip, join, starts_with, cons_head}

abbrev pub default_max_chars : ℕ
default_max_chars = 1600

abbrev pub min_chars : ℕ
min_chars = 80

pub record Chunk : Type 0 where
  pub heading : Text
  pub text : Text

abbrev pub crumb_sep : Text
crumb_sep = codes " > "

-- A blank line between two texts.
abbrev pub blank : Text
blank = b'\n' ∷ b'\n' ∷ []

abbrev pub full : List Text → List Text
full ts = keep_if (λ t. not (is_empty t)) ts

unfoldable pub embed_text : Text → Chunk → Text
unfolding join
embed_text title c =
    let crumb = join crumb_sep (full (title ∷ c.heading ∷ [])) in
    if is_empty crumb then c.text else crumb ++ b'\n' ∷ c.text

-- How much of the text after a newline `\s*\n` takes: up to the last newline of the space, 0 where
-- it does not match.
unfoldable pub break_length : Text → ℕ
break_length [] = 0
break_length (c ∷ s) =
    let more = break_length s in
    let here = if c == b'\n' then 1 else 0 in
    if is_space c then (if ltb 0 more then suc more else here) else 0

-- `re.split(r"\n\s*\n", text)`, after as many characters as a match has still to take.
unfoldable pub split_breaks : ℕ → Text → List Text
split_breaks skip [] = [] ∷ []
split_breaks (suc skip) (c ∷ s) = split_breaks skip s
split_breaks zero (c ∷ s) =
    let parted = [] ∷ split_breaks (break_length s) s in
    let more = cons_head c (split_breaks 0 s) in
    if c == b'\n' && ltb 0 (break_length s) then parted else more

unfoldable pub paragraphs : Text → List Text
paragraphs text = full (map strip (split_breaks 0 text))

unfoldable pub extended : Text → Text → Text
extended buf p = if is_empty buf then p else buf ++ (blank ++ p)

-- The loop of `_split_paragraphs`: what it puts out from a buffer and the paragraphs left.
unfoldable pub pack : ℕ → Text → List Text → List Text
pack max_chars buf [] = if is_empty buf then [] else buf ∷ []
pack max_chars buf (p ∷ ps) =
    let flushed = buf ∷ pack max_chars p ps in
    let more = pack max_chars (extended buf p) ps in
    if not (is_empty buf) && ltb max_chars (length buf + 2 + length p) then flushed else more

unfoldable pub split_paragraphs : Text → ℕ → List Text
split_paragraphs text max_chars = pack max_chars [] (paragraphs text)

-- `str.splitlines`: the characters that end a line; a carriage return and a newline end one together.
unfoldable pub ends_line : ℕ → Bool
ends_line c =
    (leb 10 c && leb c 13) || (leb 28 c && leb c 30) || c == 0x85 || c == 0x2028 || c == 0x2029

unfoldable pub splitlines : Text → List Text
splitlines [] = []
splitlines (c ∷ []) = if ends_line c then [] ∷ [] else (c ∷ []) ∷ []
splitlines (c ∷ d ∷ s) =
    let rest = splitlines (d ∷ s) in
    if c == 13 && d == b'\n' then rest else if ends_line c then [] ∷ rest else cons_head c rest

-- `\s*#*\s*$`
abbrev pub drop_hashes : Text → Text
drop_hashes s = lstrip (λ c. c == b'#') s

unfoldable pub closes : Text → Bool
closes s = is_empty (lstrip is_space (drop_hashes (lstrip is_space s)))

-- `(.*?)` before it: the shortest that leaves a tail of that shape.
unfoldable pub lazy_title : Text → Text
lazy_title [] = []
lazy_title (c ∷ s) = let more = c ∷ lazy_title s in if closes (c ∷ s) then [] else more

-- After the hashes: `\s+(.*?)\s*#*\s*$`.
unfoldable pub heading_title : Text → Option Text
heading_title [] = none
heading_title (c ∷ s) = if is_space c then some (strip (lazy_title (lstrip is_space s))) else none

-- `_HEADING.match(line)`, with the level, and the title stripped.
unfoldable pub match_heading : Text → Option (ℕ × Text)
match_heading line =
    let hashes : ℕ =
      if starts_with (codes "###") line
      then 3
      else if starts_with (codes "##") line
      then 2
      else if starts_with (codes "#") line
      then 1
      else 0 in
    if hashes == 0
    then none
    else elim (heading_title (drop hashes line)) [ none ↦ none | some title ↦ some (hashes, title) ]
