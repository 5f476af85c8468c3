-- ===== src/Chunks/Lines.antt =====
-- The lines of a document in its sections.
use joshua_ai.Base.{
  Bool, not, none, some, List, [], ◌∷◌, ◌++◌, if◌then◌else◌, Bool-cases, Option-cases, inl, inr,
  ◌≡◌, refl, ap, ◌∙◌,
}
use mathlib.Core.List.{append_assoc}
use joshua_ai.Base.Text.{Text}
use joshua_ai.Chunks.Markdown.{
  Section, Reader, keep_line, is_fence, heading_of, open_section, sections,
}

abbrev pub lines_of : List Section → List Text
lines_of [] = []
lines_of (s ∷ ss) = s.1 ++ lines_of ss

-- The lines that are no heading, where a fence opens or closes with each line that marks one.
abbrev pub body_lines : Bool → List Text → List Text
body_lines in_fence [] = []
body_lines in_fence (line ∷ lines) =
    let fence = line ∷ body_lines (not in_fence) lines in
    let body = line ∷ body_lines in_fence lines in
    let rest : List Text = elim (heading_of in_fence line) [
      | none ↦ body
      | some heading ↦ body_lines in_fence lines
    ] in
    if is_fence line then fence else rest

kept_on :
    (r : Reader) (line : Text) (lines : List Text) (in_fence : Bool)
    → lines_of (sections (record (keep_line line r) { in_fence = in_fence }) lines)
      ≡ (r.last.1 ++ line ∷ []) ++ body_lines in_fence lines
    → lines_of (sections (record (keep_line line r) { in_fence = in_fence }) lines)
      ≡ r.last.1 ++ (line ∷ body_lines in_fence lines)
kept_on r line lines in_fence h = h ∙ append_assoc r.last.1 (line ∷ []) (body_lines in_fence lines)

pub sections-lines_of :
    (r : Reader) (lines : List Text)
    → lines_of (sections r lines) ≡ r.last.1 ++ body_lines r.in_fence lines
unfolding sections open_section
sections-lines_of r [] = refl
sections-lines_of r (line ∷ lines) = elim (Bool-cases (is_fence line)) [
  | inl fence ↦
      let inside = record (keep_line line r) { in_fence = not r.in_fence } in
      rw (fence) (kept_on r line lines (not r.in_fence) (sections-lines_of inside lines))
  | inr plain ↦ elim (Option-cases (heading_of r.in_fence line)) [
    | inl body ↦
        rw (plain, body)
          (kept_on r line lines r.in_fence (sections-lines_of (keep_line line r) lines))
    | inr ((level, title), heading) ↦
        rw (plain, heading)
          (ap (λ rest. r.last.1 ++ rest) (sections-lines_of (open_section level title r) lines))
  ]
]
