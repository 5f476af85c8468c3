-- ===== src/Chunks/Placed.antt =====
-- What is printed in the chunks of `chunk_markdown`, through one section's fold or placement.
use joshua_ai.Base.{
  ℕ, true, false, Option, none, some, List, [], ◌∷◌, ◌++◌, map, is_empty, ◌≡◌, refl, ap, sym, ◌∙◌,
  arith, Bool-cases, inl, inr,
}
use mathlib.Core.List.{append_assoc, append-nil}
use joshua_ai.Base.Text.{Text, strip, lstrip, rstrip, is_space}
use joshua_ai.Chunks.{Chunk, blank, extended, paragraphs, split_paragraphs}
use joshua_ai.Chunks.Markdown.{Packing, fold_last, put_first, fold_small, place}
use joshua_ai.Chunks.Ink.{
  ink, inks, ink_space, ink_printed, ink-append, ink-strip, ink-join, inks-paragraphs,
}
use joshua_ai.Chunks.Paragraphs.{split_paragraphs-Fits}

-- What is printed in the chunks.
abbrev pub printed : List Chunk → Text
printed [] = []
printed (c ∷ cs) = ink c.text ++ printed cs

pub printed-append : (a b : List Chunk) → printed (a ++ b) ≡ printed a ++ printed b
printed-append [] b = refl
printed-append (c ∷ a) b =
    ap (λ rest. ink c.text ++ rest) (printed-append a b)
    ∙ sym (append_assoc (ink c.text) (printed a) (printed b))

pub printed-map :
    (heading : Text) (ts : List Text)
    → printed (map (λ piece. record { heading = heading; text = piece }) ts) ≡ inks ts
printed-map heading [] = refl
printed-map heading (t ∷ ts) = ap (λ rest. ink t ++ rest) (printed-map heading ts)

-- What waits does so only before the first chunk.
abbrev pub Ready : List Chunk → Text → Type 0
Ready [] carry = Unit
Ready (c ∷ cs) carry = carry ≡ []

pub Ready-nil : (cs : List Chunk) → Ready cs []
Ready-nil [] = tt
Ready-nil (c ∷ cs) = refl

abbrev pub total : Packing → Text
total p = printed p.chunks ++ ink p.carry

-- A packing that is ready and holds this.
abbrev pub Landed : Option Packing → Text → Type 0
Landed none t = ⊥
Landed (some p) t = Ready p.chunks p.carry × (total p ≡ t)

pub ink-blank : (t : Text) → ink (blank ++ t) ≡ ink t
unfolding is_space
ink-blank t = refl

pub ink-blank_empty : ink blank ≡ []
unfolding is_space
ink-blank_empty = refl

pub inks-empty : (ts : List Text) → is_empty ts ≡ true → inks ts ≡ []
inks-empty [] h = refl
inks-empty (t ∷ ts) h = ground arith

pub ink-split_paragraphs :
    (text : Text) (max_chars : ℕ) → inks (split_paragraphs text max_chars) ≡ ink text
ink-split_paragraphs text max_chars =
    let same = (split_paragraphs-Fits text max_chars).0 in
    sym (ink-join blank (split_paragraphs text max_chars) ink-blank_empty)
    ∙ ap ink same
    ∙ ink-join blank (paragraphs text) ink-blank_empty
    ∙ inks-paragraphs text

pub lstrip_blank : (t : Text) → ink t ≡ [] → lstrip is_space t ≡ []
unfolding lstrip
lstrip_blank [] h = refl
lstrip_blank (c ∷ t) h = elim (Bool-cases (is_space c)) [
  | inl space ↦ rw (space, lstrip) (lstrip_blank t (sym (ink_space c t space) ∙ h))
  | inr seen ↦ ground (arith, sym (ink_printed c t seen) ∙ h)
]

pub strip_blank : (t : Text) → ink (strip t) ≡ [] → is_empty (strip t) ≡ true
unfolding strip rstrip
strip_blank t h =
    let nothing = lstrip_blank t (sym (ink-strip t) ∙ h) in
    ap (λ u. is_empty (rstrip is_space u)) nothing

pub ink-extended : (buf p : Text) → ink (extended buf p) ≡ ink buf ++ ink p
unfolding extended
ink-extended [] p = refl
ink-extended (b ∷ buf) p =
    ink-append (b ∷ buf) (blank ++ p) ∙ ap (λ t. ink (b ∷ buf) ++ t) (ink-blank p)

pub printed-fold_last :
    (more : Text) (c : Chunk) (cs : List Chunk)
    → printed (fold_last more (c ∷ cs)) ≡ printed (c ∷ cs) ++ ink more
unfolding fold_last
printed-fold_last more c [] =
    append-nil (ink (c.text ++ (blank ++ more)))
    ∙ ink-append c.text (blank ++ more)
    ∙ ap (λ t. ink c.text ++ t) (ink-blank more)
    ∙ ap (λ t. t ++ ink more) (sym (append-nil (ink c.text)))
printed-fold_last more c (d ∷ cs) =
    ap (λ rest. ink c.text ++ rest) (printed-fold_last more d cs)
    ∙ sym (append_assoc (ink c.text) (printed (d ∷ cs)) (ink more))

pub fold_small-Landed :
    (small : Text) (chunks : List Chunk) (carry : Text)
    → Ready chunks carry
    → Landed
        (some (fold_small small (record { chunks = chunks; carry = carry })))
        (printed chunks ++ ink carry ++ ink small)
unfolding fold_small
fold_small-Landed small [] carry ready = (tt, ink-extended carry small)
fold_small-Landed small (c ∷ cs) (x ∷ carry) ready = ground arith
fold_small-Landed small (c ∷ cs) [] ready = (
  Ready-nil (fold_last small (c ∷ cs)),
  append-nil (printed (fold_last small (c ∷ cs)))
      ∙ printed-fold_last small c cs
      ∙ ap (λ t. t ++ ink small) (sym (append-nil (printed (c ∷ cs)))),
)

pub place-Landed :
    (heading : Text) (pieces : List Text) (chunks : List Chunk) (carry : Text)
    → Ready chunks carry
    → is_empty pieces ≡ false
    → Landed
        (place heading pieces (record { chunks = chunks; carry = carry }))
        (printed chunks ++ ink carry ++ inks pieces)
unfolding place put_first
place-Landed heading pieces chunks [] ready some_ =
    let placed = map (λ piece. record { heading = heading; text = piece }) pieces in
    (
      Ready-nil (chunks ++ placed),
      append-nil (printed (chunks ++ placed))
          ∙ printed-append chunks placed
          ∙ ap (λ t. printed chunks ++ t) (printed-map heading pieces)
          ∙ ap (λ t. t ++ inks pieces) (sym (append-nil (printed chunks))),
    )
place-Landed heading [] chunks (x ∷ carry) ready some_ = ground arith
place-Landed heading (q ∷ pieces) [] (x ∷ carry) ready some_ =
    let first : Text = x ∷ carry in
    let rest = printed (map (λ piece. record { heading = heading; text = piece }) pieces) in
    (
      refl,
      append-nil (ink (first ++ (blank ++ q)) ++ rest)
          ∙ ap (λ t. t ++ rest)
              (ink-append first (blank ++ q) ∙ ap (λ t. ink first ++ t) (ink-blank q))
          ∙ append_assoc (ink first) (ink q) rest
          ∙ ap (λ t. ink first ++ (ink q ++ t)) (printed-map heading pieces),
    )
place-Landed heading (q ∷ pieces) (c ∷ cs) (x ∷ carry) ready some_ = ground arith
