-- ===== src/Writes/Arguments.antt =====
-- What the arguments of a writing tool say.
use mathlib.Core.Option.{some-injective}
use joshua_ai.Base.{
  ◌⊎◌, ap, sym, if_false, is_empty, ◌&&◌, String_eq, ◌==◌, Bool, true, false, Option, some, none,
  [], ◌∷◌, ◌==◌, List_eq, ℕ_eq, Option_eq, ◌≡◌, refl, arith, subst, inl, inr, eq_of_beq, beq_self,
  Bool-cases,
}
use joshua_ai.Base.Text.{Text, codes}
use joshua_ai.Writes.{Value, text, other, is_truthy, full_text, is_write, journal_tool, ToolCall}

-- The tools that write a page, and not an entry of the journal.
abbrev pub IsPageTool : Text → Type 0
IsPageTool name = (name ≡ codes "mcp__files__write_file") ⊎ (name ≡ codes "mcp__files__rename_file")

-- An argument that is this text, and not empty.
abbrev pub Given : Option Value → Text → Type 0
Given value t = (value ≡ some (text t)) × (is_empty t ≡ false)

-- An argument that is no text, or the empty one.
abbrev pub NoText : Option Value → Type 0
NoText none = Unit
NoText (some (text t)) = t ≡ []
NoText (some (other b)) = Unit

-- An argument that counts as false.
abbrev pub Falsy : Option Value → Type 0
Falsy none = Unit
Falsy (some (text t)) = t ≡ []
Falsy (some (other b)) = b ≡ false

pub and_left : (a b : Bool) → (a && b) ≡ true → a ≡ true
and_left true b h = refl
and_left false b h = h

pub and_right : (a b : Bool) → (a && b) ≡ true → b ≡ true
and_right true b h = h
and_right false b h = ground (arith, h)

pub page_tool :
    (call : ToolCall)
    → is_write call ≡ true
    → (call.name == journal_tool) ≡ false
    → IsPageTool call.name
page_tool call writes other_tool = elim (Bool-cases (codes "mcp__files__write_file" == call.name)) [
  | inl same ↦ inl (sym (eq_of_beq (codes "mcp__files__write_file") call.name same))
  | inr no_write ↦ elim (Bool-cases (codes "mcp__files__rename_file" == call.name)) [
    | inl same ↦ inr (sym (eq_of_beq (codes "mcp__files__rename_file") call.name same))
    | inr no_rename ↦ elim (Bool-cases (journal_tool == call.name)) [
      | inl same ↦
          let named = eq_of_beq journal_tool call.name same in
          let self = subst (λ n. (n == journal_tool) ≡ true) named (beq_self journal_tool) in
          absurd (cc)
      | inr no_entry ↦ absurd (ground (arith, writes, no_write, no_rename, no_entry))
    ]
  ]
]

pub full_text-Given : (value : Option Value) (t : Text) → full_text value ≡ some t → Given value t
full_text-Given none t h = ground (arith, h)
full_text-Given (some (text [])) t h = ground (arith, h)
full_text-Given (some (text (c ∷ cs))) t h =
    let same : c ∷ cs ≡ t = some-injective (c ∷ cs) t h in
    (ap (λ u. some (text u)) same, subst (λ u. is_empty u ≡ false) same refl)
full_text-Given (some (other b)) t h = ground (arith, h)

pub full_text-NoText : (value : Option Value) → full_text value ≡ none → NoText value
full_text-NoText none h = tt
full_text-NoText (some (text [])) h = refl
full_text-NoText (some (text (c ∷ cs))) h = ground (arith, h)
full_text-NoText (some (other b)) h = tt

pub is_truthy-Falsy : (value : Option Value) → is_truthy value ≡ false → Falsy value
is_truthy-Falsy none h = tt
is_truthy-Falsy (some (text [])) h = refl
is_truthy-Falsy (some (text (c ∷ cs))) h = ground (arith, h)
is_truthy-Falsy (some (other b)) h = h

pub Given-full_text : (value : Option Value) (t : Text) → Given value t → full_text value ≡ some t
Given-full_text value t (same, full) = rw same (if_false (is_empty t) none (some t) full)

pub Given-is_truthy : (value : Option Value) (t : Text) → Given value t → is_truthy value ≡ true
Given-is_truthy value t (same, full) = rw (same, full) refl

pub NoText-full_text : (value : Option Value) → NoText value → full_text value ≡ none
NoText-full_text none h = refl
NoText-full_text (some (text t)) h = rw h refl
NoText-full_text (some (other b)) h = refl

pub Falsy-is_truthy : (value : Option Value) → Falsy value → is_truthy value ≡ false
Falsy-is_truthy none h = refl
Falsy-is_truthy (some (text t)) h = rw h refl
Falsy-is_truthy (some (other b)) h = h
