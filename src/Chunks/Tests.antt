-- ===== src/Chunks/Tests.antt =====
-- A short document and its chunks.
use joshua_ai.Base.{false, some, [], ◌∷◌, ◌++◌, ◌≡◌, refl, map}
use mathlib.Core.Option as Options
use joshua_ai.Base.Text.{Text, codes, is_space, strip, lstrip, rstrip, join, starts_with}
use joshua_ai.Chunks.{
  blank, embed_text, break_length, split_breaks, paragraphs, extended, pack, split_paragraphs,
  ends_line, splitlines, closes, lazy_title, heading_title, match_heading, default_max_chars,
}
use joshua_ai.Chunks.Markdown.{
  set_crumb, breadcrumb, is_fence, heading_of, open_section, sections, start, snippet, fold_last,
  put_first, fold_small, place, body_of, add_section, add_sections, finish, chunk_markdown,
}
use joshua_ai.Chunks.Ink.{ink}
use joshua_ai.Chunks.Lines.{lines_of, body_lines}
use joshua_ai.Chunks.Placed.{printed}
use joshua_ai.Chunks.Kept.{all_kept, chunk_markdown-kept}

program : Unit {0}
unfolding is_space strip lstrip rstrip join starts_with embed_text break_length split_breaks
    paragraphs extended pack split_paragraphs ends_line splitlines closes lazy_title heading_title
    match_heading set_crumb breadcrumb is_fence heading_of open_section sections snippet fold_last
    put_first fold_small place body_of add_section add_sections finish chunk_markdown
program = tt

abbrev nl : Text
nl = b'\n' ∷ []

abbrev document : Text
document =
    codes "see also"
    ++ nl
    ++ codes "# Home ##"
    ++ nl
    ++ codes "## Guest wifi"
    ++ nl
    ++ codes "The password is on the door of the study, and it changes in the first week of May."
    ++ nl
    ++ codes "```"
    ++ nl
    ++ codes "# no heading"
    ++ nl
    ++ codes "```"
    ++ nl
    ++ codes "### Old"
    ++ nl
    ++ codes "gone"
    ++ nl

its_chunks :
    Options.map (map (λ c. c.heading)) (chunk_markdown document default_max_chars)
    ≡ some (codes "Home > Guest wifi" ∷ [])
unfolding program
its_chunks = refl

its_sections :
    map (λ s. s.0) (sections start (splitlines document))
    ≡ [] ∷ codes "Home" ∷ codes "Home > Guest wifi" ∷ codes "Home > Guest wifi > Old" ∷ []
unfolding program
its_sections = refl

abbrev paragraphs_text : Text
paragraphs_text =
    codes "one" ++ nl ++ codes " " ++ nl ++ nl ++ codes "two" ++ nl ++ nl ++ codes "a longer one"

its_pieces :
    split_paragraphs paragraphs_text 8
    ≡ (codes "one" ++ blank ++ codes "two") ∷ codes "a longer one" ∷ []
unfolding program
its_pieces = refl

embedded :
    embed_text (codes "Wiki") (record { heading = codes "A > B"; text = codes "x" })
    ≡ codes "Wiki > A > B" ++ nl ++ codes "x"
unfolding program
embedded = refl

chunk_markdown-kept_example :
    (Options.map printed (chunk_markdown document default_max_chars)
      ≡ some (ink (all_kept (sections start (splitlines document)))))
    × (lines_of (sections start (splitlines document)) ≡ body_lines false (splitlines document))
chunk_markdown-kept_example = chunk_markdown-kept document default_max_chars
