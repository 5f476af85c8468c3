-- ===== src/Writes/Wrote.antt =====
-- Which file a call of a writing tool wrote.
use mathlib.Core.Option.{some-injective}
use joshua_ai.Base.{
  ◌⊎◌, ap, sym, ◌&&◌, String_eq, ◌==◌, true, Option, some, none, ◌++◌, ◌==◌, List_eq, ℕ_eq,
  Option_eq, if◌then◌else◌, ◌≡◌, refl, arith, subst, ◌∙◌, if_cases, Option-cases, inl, inr,
  eq_of_beq,
}
use joshua_ai.Base.Dict
use joshua_ai.Base.Text.{Text, codes}
use joshua_ai.Writes.{
  Value, is_truthy, full_text, is_write, journal_tool, journal_day, journal_path, target_path,
  ToolCall, path_of,
}
use joshua_ai.Writes.Arguments.{
  IsPageTool, Given, NoText, Falsy, and_left, and_right, page_tool, full_text-Given,
  full_text-NoText, is_truthy-Falsy, Given-full_text, Given-is_truthy, NoText-full_text,
  Falsy-is_truthy,
}

module _ (fromisoformat : Text → Option Text) (today : Option Text) where
  -- A write call that landed, with the path that it wrote.
  pub data Wrote (call : ToolCall) : Text → Type 0 where
    entered :
        (slug day : Text)
        → call.ok ≡ true
        → call.name ≡ codes "mcp__files__write_journal_entry"
        → Given (Dict.get "slug" call.input) slug
        → ((raw : Text) × Given (Dict.get "date" call.input) raw × (fromisoformat raw ≡ some day))
          ⊎ (NoText (Dict.get "date" call.input) × (today ≡ some day))
        → Wrote call (codes "wiki/journal/" ++ (day ++ (codes "/" ++ (slug ++ codes ".md"))))
    moved_to :
        (path : Text)
        → call.ok ≡ true
        → IsPageTool call.name
        → Given (Dict.get "to" call.input) path
        → Wrote call path
    written_to :
        (path : Text)
        → call.ok ≡ true
        → IsPageTool call.name
        → Falsy (Dict.get "to" call.input)
        → Given (Dict.get "path" call.input) path
        → Wrote call path

  day_of-Dated :
      (value : Option Value) (day : Text)
      → journal_day fromisoformat today (full_text value) ≡ some day
      → ((raw : Text) × Given value raw × (fromisoformat raw ≡ some day))
        ⊎ (NoText value × (today ≡ some day))
  unfolding journal_day
  day_of-Dated value day h = elim (Option-cases (full_text value)) [
    | inl no_date ↦ inr (
      full_text-NoText value no_date,
      subst (λ o. journal_day fromisoformat today o ≡ some day) no_date h,
    )
    | inr (raw, given) ↦ inl (
      raw,
      full_text-Given value raw given,
      subst (λ o. journal_day fromisoformat today o ≡ some day) given h,
    )
  ]

  Dated-day_of :
      (value : Option Value) (day : Text)
      → ((raw : Text) × Given value raw × (fromisoformat raw ≡ some day))
        ⊎ (NoText value × (today ≡ some day))
      → journal_day fromisoformat today (full_text value) ≡ some day
  unfolding journal_day
  Dated-day_of value day (inl (raw, given, reads)) =
      ap (journal_day fromisoformat today) (Given-full_text value raw given) ∙ reads
  Dated-day_of value day (inr (no_text, at)) =
      ap (journal_day fromisoformat today) (NoText-full_text value no_text) ∙ at

  journal_path-Wrote :
      (call : ToolCall) (path : Text)
      → call.ok ≡ true
      → call.name ≡ codes "mcp__files__write_journal_entry"
      → journal_path fromisoformat today call.input ≡ some path
      → Wrote call path
  unfolding journal_path journal_day
  journal_path-Wrote call path landed named e =
      let slug_of = Dict.get "slug" call.input in
      let date_of = Dict.get "date" call.input in
      elim (Option-cases (full_text slug_of)) [
        | inl no_slug ↦
            let gone : journal_path fromisoformat today call.input ≡ none =
              rw (no_slug, journal_path) refl in
            absurd (ground (arith, sym gone ∙ e))
        | inr (slug, has_slug) ↦
            let day_of = journal_day fromisoformat today (full_text date_of) in
            elim (Option-cases day_of) [
              | inl no_day ↦
                  let gone : journal_path fromisoformat today call.input ≡ none =
                    rw (has_slug, journal_path, no_day) refl in
                  absurd (ground (arith, sym gone ∙ e))
              | inr (day, has_day) ↦
                  let built : journal_path fromisoformat today call.input
                      ≡ some
                          (codes "wiki/journal/" ++ (day ++ (codes "/" ++ (slug ++ codes ".md")))) =
                    rw (has_slug, journal_path, has_day) refl in
                  let same =
                    some-injective
                      (codes "wiki/journal/" ++ (day ++ (codes "/" ++ (slug ++ codes ".md")))) path
                      (sym built ∙ e) in
                  subst (Wrote call) same (
                    entered slug day landed named (full_text-Given slug_of slug has_slug)
                      (day_of-Dated date_of day has_day))
            ]
      ]

  target_path-Wrote :
      (call : ToolCall) (path : Text)
      → call.ok ≡ true
      → IsPageTool call.name
      → target_path fromisoformat today call.input ≡ some path
      → Wrote call path
  unfolding target_path
  target_path-Wrote call path landed named e =
      if_cases (λ o. o ≡ some path → Wrote call path) (is_truthy (Dict.get "to" call.input))
        (full_text (Dict.get "to" call.input)) (full_text (Dict.get "path" call.input))
        (λ _ h. moved_to path landed named (full_text-Given (Dict.get "to" call.input) path h))
        (λ no_to h.
          written_to path landed named (is_truthy-Falsy (Dict.get "to" call.input) no_to)
            (full_text-Given (Dict.get "path" call.input) path h))
        e

  pub path_of-Wrote :
      (call : ToolCall) (path : Text)
      → path_of fromisoformat today call ≡ some path
      → Wrote call path
  unfolding path_of
  path_of-Wrote call path e =
      if_cases (λ o. o ≡ some path → Wrote call path) (is_write call && call.ok)
        (if call.name == journal_tool
          then journal_path fromisoformat today call.input
          else target_path fromisoformat today call.input)
        none
        (λ writes.
          let landed : call.ok ≡ true = and_right (is_write call) call.ok writes in
          if_cases (λ o. o ≡ some path → Wrote call path) (call.name == journal_tool)
            (journal_path fromisoformat today call.input)
            (target_path fromisoformat today call.input)
            (λ journal h.
              journal_path-Wrote call path landed (eq_of_beq call.name journal_tool journal) h)
            (λ other_tool h.
              target_path-Wrote call path landed
                (page_tool call (and_left (is_write call) call.ok writes) other_tool) h))
        (λ _ h. absurd (ground (arith, h))) e

  entry_path :
      (call : ToolCall) (slug day : Text)
      → Given (Dict.get "slug" call.input) slug
      → ((raw : Text) × Given (Dict.get "date" call.input) raw × (fromisoformat raw ≡ some day))
        ⊎ (NoText (Dict.get "date" call.input) × (today ≡ some day))
      → journal_path fromisoformat today call.input
        ≡ some (codes "wiki/journal/" ++ (day ++ (codes "/" ++ (slug ++ codes ".md"))))
  unfolding journal_path
  entry_path call slug day given dated =
      rw
        (
          Given-full_text (Dict.get "slug" call.input) slug given,
          journal_path,
          Dated-day_of (Dict.get "date" call.input) day dated,
        )
        refl

  pub Wrote-path_of :
      (call : ToolCall) (path : Text)
      → Wrote call path
      → path_of fromisoformat today call ≡ some path
  unfolding path_of target_path
  Wrote-path_of call _ (entered slug day landed named given dated) =
      rw (named, landed) (entry_path call slug day given dated)
  Wrote-path_of call _ (moved_to path landed (inl named) given) =
      rw
        (
          named,
          landed,
          Given-is_truthy (Dict.get "to" call.input) path given,
          Given-full_text (Dict.get "to" call.input) path given,
        )
        refl
  Wrote-path_of call _ (moved_to path landed (inr named) given) =
      rw
        (
          named,
          landed,
          Given-is_truthy (Dict.get "to" call.input) path given,
          Given-full_text (Dict.get "to" call.input) path given,
        )
        refl
  Wrote-path_of call _ (written_to path landed (inl named) falsy given) =
      rw
        (
          named,
          landed,
          Falsy-is_truthy (Dict.get "to" call.input) falsy,
          Given-full_text (Dict.get "path" call.input) path given,
        )
        refl
  Wrote-path_of call _ (written_to path landed (inr named) falsy given) =
      rw
        (
          named,
          landed,
          Falsy-is_truthy (Dict.get "to" call.input) falsy,
          Given-full_text (Dict.get "path" call.input) path given,
        )
        refl
