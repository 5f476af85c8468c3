-- ===== src/Chunks/Paragraphs.antt =====
-- The paragraphs of a section, packed: nothing is lost, and only a paragraph that is too long by
-- itself makes a piece that is too long.
use joshua_ai.Base.{
  ℕ, ◌+◌, ◌≤◌, false, not, List, [], ◌∷◌, ◌++◌, map, is_empty, length, length-append, All, All-imp,
  drop, ltb, if◌then◌else◌, if_cases, ◌≡◌, refl, ap, sym, ◌∙◌, ◌⊎◌, inl, inr, arith,
}
use mathlib.Core.List.{append_assoc, append-nil, Mem, mem-cons_self, mem-cons_of_mem}
use joshua_ai.Base.Text.{Text, strip, join}
use joshua_ai.Chunks.{blank, full, extended, pack, paragraphs, split_paragraphs, split_breaks}

-- The texts, each with a blank line before it.
abbrev prefixed : List Text → Text
prefixed [] = []
prefixed (t ∷ ts) = (blank ++ t) ++ prefixed ts

pub join-prefixed : (ts : List Text) → join blank ts ≡ drop 2 (prefixed ts)
unfolding join
join-prefixed [] = refl
join-prefixed (t ∷ []) = sym (append-nil t)
join-prefixed (t ∷ u ∷ ts) = ap (λ rest. t ++ (blank ++ rest)) (join-prefixed (u ∷ ts))

abbrev with_buffer : Text → List Text → List Text
with_buffer buf ps = if is_empty buf then ps else buf ∷ ps

abbrev IsFull : Text → Type 0
IsFull t = is_empty t ≡ false

prefixed-extended :
    (buf p : Text) (ps : List Text)
    → IsFull p
    → prefixed (with_buffer (extended buf p) ps) ≡ prefixed (with_buffer buf (p ∷ ps))
unfolding extended
prefixed-extended buf [] ps h = ground arith
prefixed-extended [] (c ∷ p) ps h = refl
prefixed-extended (b ∷ buf) (c ∷ p) ps h =
    append_assoc (blank ++ b ∷ buf) (blank ++ c ∷ p) (prefixed ps)

prefixed-pack :
    (max_chars : ℕ) (buf : Text) (ps : List Text)
    → All IsFull ps
    → prefixed (pack max_chars buf ps) ≡ prefixed (with_buffer buf ps)
unfolding pack extended
prefixed-pack max_chars [] [] hs = refl
prefixed-pack max_chars (b ∷ buf) [] hs = refl
prefixed-pack max_chars buf ([] ∷ ps) hs = ground arith
prefixed-pack max_chars [] ((c ∷ p) ∷ ps) hs = prefixed-pack max_chars (c ∷ p) ps hs.1
prefixed-pack max_chars (b ∷ buf) ((c ∷ p) ∷ ps) hs =
    if_cases (λ ts. prefixed ts ≡ prefixed ((b ∷ buf) ∷ (c ∷ p) ∷ ps))
      (ltb max_chars (length (b ∷ buf) + 2 + length (c ∷ p)))
      ((b ∷ buf) ∷ pack max_chars (c ∷ p) ps) (pack max_chars (extended (b ∷ buf) (c ∷ p)) ps)
      (λ h. ap (λ t. (blank ++ b ∷ buf) ++ t) (prefixed-pack max_chars (c ∷ p) ps hs.1))
      (λ h.
        prefixed-pack max_chars (extended (b ∷ buf) (c ∷ p)) ps hs.1
        ∙ prefixed-extended (b ∷ buf) (c ∷ p) ps refl)

full-IsFull : (ts : List Text) → All IsFull (full ts)
full-IsFull [] = tt
full-IsFull (t ∷ ts) =
    if_cases (All IsFull) (not (is_empty t)) (t ∷ full ts) (full ts)
      (λ h. (ground arith, full-IsFull ts)) (λ h. full-IsFull ts)

-- A piece within the limit, or one paragraph.
abbrev pub Fits : ℕ → List Text → Text → Type 0
Fits max_chars ps t = (length t ≤ max_chars) ⊎ Mem t ps

pack-Fits :
    (max_chars : ℕ) (buf : Text) (ps qs : List Text)
    → Fits max_chars qs buf
    → All (λ p. Mem p qs) ps
    → All (Fits max_chars qs) (pack max_chars buf ps)
unfolding pack extended
pack-Fits max_chars [] [] qs h hs = tt
pack-Fits max_chars (b ∷ buf) [] qs h hs = (h, tt)
pack-Fits max_chars [] (p ∷ ps) qs h hs = pack-Fits max_chars p ps qs (inr hs.0) hs.1
pack-Fits max_chars (b ∷ buf) (p ∷ ps) qs h hs =
    if_cases (All (Fits max_chars qs)) (ltb max_chars (length (b ∷ buf) + 2 + length p))
      ((b ∷ buf) ∷ pack max_chars p ps) (pack max_chars ((b ∷ buf) ++ (blank ++ p)) ps)
      (λ long. (h, pack-Fits max_chars p ps qs (inr hs.0) hs.1))
      (λ short.
        pack-Fits max_chars ((b ∷ buf) ++ (blank ++ p)) ps qs
          (inl (ground (arith, length-append (b ∷ buf) (blank ++ p)))) hs.1)

All-members : (ps : List Text) → All (λ p. Mem p ps) ps
All-members [] = tt
All-members (p ∷ ps) = (mem-cons_self, All-imp ps (λ q m. mem-cons_of_mem p m) (All-members ps))

-- The pieces of a text are its paragraphs in their order: put together with blank lines they are the
-- paragraphs put together so, and a piece over the limit is one paragraph alone, never two.
pub split_paragraphs-Fits :
    (text : Text) (max_chars : ℕ)
    → (join blank (split_paragraphs text max_chars) ≡ join blank (paragraphs text))
      × All (Fits max_chars (paragraphs text)) (split_paragraphs text max_chars)
unfolding split_paragraphs paragraphs
split_paragraphs-Fits text max_chars =
    let ps : List Text = paragraphs text in
    let kept = prefixed-pack max_chars [] ps (full-IsFull (map strip (split_breaks 0 text))) in
    (
      join-prefixed (split_paragraphs text max_chars) ∙ ap (drop 2) kept ∙ sym (join-prefixed ps),
      pack-Fits max_chars [] ps ps (inl (omega arith)) (All-members ps),
    )
