-- ===== src/Chunks/Kept.antt =====
-- A document loses nothing to its chunks, and is never refused.
use joshua_ai.Base.{
  ℕ, false, Option, none, some, List, [], ◌∷◌, ◌++◌, is_empty, length, ltb, if◌then◌else◌, ◌≡◌, ap,
  sym, ◌∙◌, arith, Bool-cases, inl, inr, subst,
}
use mathlib.Core.Option as Options
use mathlib.Core.List.{append_assoc, append-nil}
use joshua_ai.Base.Text.{Text, strip, join}
use joshua_ai.Chunks.{Chunk, min_chars, split_paragraphs, splitlines}
use joshua_ai.Chunks.Markdown.{
  Section, Packing, snippet, place, body_of, add_section, add_sections, finish, sections, start,
  chunk_markdown,
}
use joshua_ai.Chunks.Ink.{ink, ink-append}
use joshua_ai.Chunks.Lines.{lines_of, body_lines, sections-lines_of}
use joshua_ai.Chunks.Placed.{
  printed, Ready, total, Landed, inks-empty, ink-split_paragraphs, strip_blank, fold_small-Landed,
  place-Landed,
}

-- What a section is to leave: nothing without a body, the body under its heading where it is small.
abbrev pub kept : Section → Text
kept s =
    let body = body_of s in
    if is_empty body then [] else if ltb (length body) min_chars then snippet s.0 body else body

abbrev pub all_kept : List Section → Text
all_kept [] = []
all_kept (s ∷ ss) = kept s ++ all_kept ss

-- A body that is not empty has pieces.
pieces_full :
    (t : Text) (max_chars : ℕ)
    → is_empty (strip t) ≡ false
    → is_empty (split_paragraphs (strip t) max_chars) ≡ false
pieces_full t max_chars h = elim (Bool-cases (is_empty (split_paragraphs (strip t) max_chars))) [
  | inr there ↦ there
  | inl gone ↦
      let nothing = inks-empty (split_paragraphs (strip t) max_chars) gone in
      let blank_text = sym (ink-split_paragraphs (strip t) max_chars) ∙ nothing in
      ground (arith, strip_blank t blank_text)
]

add_section-Landed :
    (max_chars : ℕ) (s : Section) (p : Packing)
    → Ready p.chunks p.carry
    → Landed (add_section max_chars s p) (total p ++ ink (kept s))
unfolding add_section body_of
add_section-Landed max_chars s p ready =
    let body : Text = body_of s in
    let pieces = split_paragraphs body max_chars in
    elim (Bool-cases (is_empty body)) [
      | inl none_ ↦ rw (none_) (ready, sym (append-nil (total p)))
      | inr some_ ↦ rw (some_) elim (Bool-cases (ltb (length body) min_chars)) [
        | inl few ↦ rw (few) (fold_small-Landed (snippet s.0 body) p.chunks p.carry ready)
        | inr many ↦ rw (many) (
            subst (λ x. Landed (place s.0 pieces p) (total p ++ x))
              (ink-split_paragraphs body max_chars)
              (place-Landed s.0 pieces p.chunks p.carry ready
                (pieces_full (join (b'\n' ∷ []) s.1) max_chars some_)))
      ]
    ]

then_Landed :
    (o : Option Packing) (t u : Text) (f : Packing → Option Packing)
    → Landed o t
    → ((q : Packing) → Ready q.chunks q.carry → total q ≡ t → Landed (f q) u)
    → Landed (elim o [ none ↦ none | some q ↦ f q ]) u
then_Landed none t u f h next = absurd h
then_Landed (some q) t u f h next = next q h.0 h.1

add_sections-Landed :
    (max_chars : ℕ) (ss : List Section) (p : Packing)
    → Ready p.chunks p.carry
    → Landed (add_sections max_chars ss p) (total p ++ ink (all_kept ss))
unfolding add_sections
add_sections-Landed max_chars [] p ready = (ready, sym (append-nil (total p)))
add_sections-Landed max_chars (s ∷ ss) p ready =
    then_Landed (add_section max_chars s p) (total p ++ ink (kept s))
      (total p ++ ink (all_kept (s ∷ ss))) (add_sections max_chars ss)
      (add_section-Landed max_chars s p ready)
      (λ q ready1 same.
        let whole : total q ++ ink (all_kept ss) ≡ total p ++ ink (all_kept (s ∷ ss)) =
          ap (λ t. t ++ ink (all_kept ss)) same
          ∙ append_assoc (total p) (ink (kept s)) (ink (all_kept ss))
          ∙ ap (λ t. total p ++ t) (sym (ink-append (kept s) (all_kept ss))) in
        subst (Landed (add_sections max_chars ss q)) whole
          (add_sections-Landed max_chars ss q ready1))

printed-finish :
    (chunks : List Chunk) (carry : Text)
    → Ready chunks carry
    → printed (finish (record { chunks = chunks; carry = carry })) ≡ printed chunks ++ ink carry
unfolding finish
printed-finish chunks [] ready = sym (append-nil (printed chunks))
printed-finish [] (x ∷ carry) ready = append-nil (ink (x ∷ carry))
printed-finish (c ∷ cs) (x ∷ carry) ready = ground arith

finish-Landed :
    (o : Option Packing) (t : Text)
    → Landed o t
    → Options.map printed (elim o [ none ↦ none | some p ↦ some (finish p) ]) ≡ some t
finish-Landed none t h = absurd h
finish-Landed (some p) t h = ap some (printed-finish p.chunks p.carry h.0 ∙ h.1)

-- Every document has its chunks, and what is printed in them, in their order, is what is printed in
-- its sections in theirs: the body of each section that has one, under its heading where the body is
-- shorter than the least length. No character but space is lost, doubled or moved, for every limit.
-- The lines of the sections are those of the text that are no heading outside a fence, in order.
pub chunk_markdown-kept :
    (text : Text) (max_chars : ℕ)
    → let ss : List Section = sections start (splitlines text) in
      (Options.map printed (chunk_markdown text max_chars) ≡ some (ink (all_kept ss)))
      × (lines_of ss ≡ body_lines false (splitlines text))
unfolding chunk_markdown
chunk_markdown-kept text max_chars =
    let ss : List Section = sections start (splitlines text) in
    (
      finish-Landed (add_sections max_chars ss (record { chunks = []; carry = [] }))
          (ink (all_kept ss))
          (add_sections-Landed max_chars ss (record { chunks = []; carry = [] }) tt),
      sections-lines_of start (splitlines text),
    )
