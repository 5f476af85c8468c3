-- ===== src/Chunks/Markdown.antt =====
-- `chunk_markdown` of core/joshua_core/memory/chunker.py: the sections of a document, then its chunks.
use joshua_ai.Base.{
  ℕ, Bool, false, not, Option, some, none, List, [], ◌∷◌, ◌++◌, ◌==◌, ℕ_eq, map, is_empty, length,
  ltb, if◌then◌else◌,
}
use joshua_ai.Base.Text.{Text, codes, is_space, strip, lstrip, join, starts_with}
use joshua_ai.Chunks.{
  Chunk, min_chars, blank, full, crumb_sep, splitlines, match_heading, split_paragraphs, extended,
}

-- The heading of a section and the lines of its body.
abbrev pub Section : Type 0
Section = Text × List Text

-- The titles of the three levels.
abbrev pub Crumbs : Type 0
Crumbs = Text × Text × Text

-- What the loop over the lines holds, the last section apart from those before it.
pub record Reader : Type 0 where
  pub in_fence : Bool
  pub crumbs : Crumbs
  pub last : Section

abbrev pub start : Reader
start = record { in_fence = false; crumbs = ([], [], []); last = ([], []) }

unfoldable pub set_crumb : ℕ → Text → Crumbs → Crumbs
set_crumb level title (h1, h2, h3) =
    if level == 1 then (title, [], []) else if level == 2 then (h1, title, []) else (h1, h2, title)

unfoldable pub breadcrumb : Crumbs → Text
breadcrumb (h1, h2, h3) = join crumb_sep (full (h1 ∷ h2 ∷ h3 ∷ []))

abbrev pub keep_line : Text → Reader → Reader
keep_line line r = record r { last = (r.last.0, r.last.1 ++ line ∷ []) }

unfoldable pub is_fence : Text → Bool
is_fence line = starts_with (codes "```") (lstrip is_space line)

-- The heading that a line is, outside a fence.
unfoldable pub heading_of : Bool → Text → Option (ℕ × Text)
heading_of in_fence line = if in_fence then none else match_heading line

unfoldable pub open_section : ℕ → Text → Reader → Reader
open_section level title r =
    let crumbs = set_crumb level title r.crumbs in
    record r { crumbs = crumbs; last = (breadcrumb crumbs, []) }

unfoldable pub sections : Reader → List Text → List Section
sections r [] = r.last ∷ []
sections r (line ∷ lines) =
    let fence = sections (record (keep_line line r) { in_fence = not r.in_fence }) lines in
    let body = sections (keep_line line r) lines in
    let rest : List Section = elim (heading_of r.in_fence line) [
      | none ↦ body
      | some (level, title) ↦ r.last ∷ sections (open_section level title r) lines
    ] in
    if is_fence line then fence else rest

-- The chunks so far, and the small sections that wait for one.
pub record Packing : Type 0 where
  pub chunks : List Chunk
  pub carry : Text

unfoldable pub snippet : Text → Text → Text
snippet heading body = if is_empty heading then body else codes "## " ++ (heading ++ (b'\n' ∷ body))

-- `chunks[-1] = Chunk(prev.heading, f"{prev.text}\n\n{snippet}")`
unfoldable pub fold_last : Text → List Chunk → List Chunk
fold_last more [] = []
fold_last more (c ∷ []) = record c { text = c.text ++ (blank ++ more) } ∷ []
fold_last more (c ∷ d ∷ cs) = c ∷ fold_last more (d ∷ cs)

-- `pieces[0]` with the carry before it: an IndexError where there is none.
unfoldable pub put_first : Text → List Text → Option (List Text)
put_first carry pieces =
    if is_empty carry
    then some pieces
    else elim pieces [ [] ↦ none | piece ∷ rest ↦ some ((carry ++ (blank ++ piece)) ∷ rest) ]

unfoldable pub body_of : Section → Text
body_of (heading, lines) = strip (join (b'\n' ∷ []) lines)

-- A small section goes to the end of the last chunk, or waits.
unfoldable pub fold_small : Text → Packing → Packing
fold_small small p =
    if is_empty p.chunks
    then record p { carry = extended p.carry small }
    else record p { chunks = fold_last small p.chunks }

-- The pieces of a section, each a chunk, after what waited.
unfoldable pub place : Text → List Text → Packing → Option Packing
place heading pieces p = elim (put_first p.carry pieces) [
  | none ↦ none
  | some placed ↦ some record {
    chunks = p.chunks ++ map (λ piece. record { heading = heading; text = piece }) placed;
    carry = [];
  }
]

unfoldable pub add_section : ℕ → Section → Packing → Option Packing
add_section max_chars section p =
    let body = body_of section in
    if is_empty body
    then some p
    else if ltb (length body) min_chars
    then some (fold_small (snippet section.0 body) p)
    else place section.0 (split_paragraphs body max_chars) p

unfoldable pub add_sections : ℕ → List Section → Packing → Option Packing
add_sections max_chars [] p = some p
add_sections max_chars (s ∷ ss) p = elim (add_section max_chars s p) [
  | none ↦ none
  | some q ↦ add_sections max_chars ss q
]

-- The last chunk of a document that has only small sections.
unfoldable pub finish : Packing → List Chunk
finish p =
    if is_empty p.carry then p.chunks else p.chunks ++ record { heading = []; text = p.carry } ∷ []

unfoldable pub chunk_markdown : Text → ℕ → Option (List Chunk)
chunk_markdown text max_chars =
    elim (add_sections max_chars (sections start (splitlines text))
      (record { chunks = []; carry = [] })) [ none ↦ none | some p ↦ some (finish p) ]
