-- ===== src/Chunks/Ink.antt =====
-- What is printed of a text: its characters that are not space. Stripping and splitting keep it.
use joshua_ai.Base.{
  ℕ, suc, zero, Bool, true, false, not, ◌&&◌, List, [], ◌∷◌, ◌++◌, ◌==◌, ℕ_eq, map, is_empty, drop,
  keep_if, ltb, if◌then◌else◌, if_cases, Bool-cases, inl, inr, ◌≡◌, refl, ap, sym, ◌∙◌, arith,
}
use mathlib.Core.List.{append_assoc, append-nil}
use joshua_ai.Base.Text.{Text, is_space, strip, lstrip, rstrip, join, cons_head}
use joshua_ai.Chunks.{full, break_length, split_breaks, paragraphs}

abbrev pub ink : Text → Text
ink s = keep_if (λ c. not (is_space c)) s

abbrev pub inks : List Text → Text
inks [] = []
inks (t ∷ ts) = ink t ++ inks ts

pub ink_space : (c : ℕ) (s : Text) → is_space c ≡ true → ink (c ∷ s) ≡ ink s
ink_space c s h = rw (h) refl

pub ink_printed : (c : ℕ) (s : Text) → is_space c ≡ false → ink (c ∷ s) ≡ c ∷ ink s
ink_printed c s h = rw (h) refl

pub ink-empty : (t : Text) → is_empty t ≡ true → ink t ≡ []
ink-empty [] h = refl
ink-empty (c ∷ t) h = ground arith

pub ink-append : (a b : Text) → ink (a ++ b) ≡ ink a ++ ink b
ink-append [] b = refl
ink-append (c ∷ a) b = elim (Bool-cases (is_space c)) [
  | inl space ↦ rw (space, ink-append a b) refl
  | inr printed ↦ rw (printed, ink-append a b) refl
]

pub inks-append : (a b : List Text) → inks (a ++ b) ≡ inks a ++ inks b
inks-append [] b = refl
inks-append (t ∷ a) b =
    ap (λ rest. ink t ++ rest) (inks-append a b) ∙ sym (append_assoc (ink t) (inks a) (inks b))

pub ink-lstrip : (s : Text) → ink (lstrip is_space s) ≡ ink s
unfolding lstrip
ink-lstrip [] = refl
ink-lstrip (c ∷ s) = elim (Bool-cases (is_space c)) [
  | inl space ↦
      let dropped : lstrip is_space (c ∷ s) ≡ lstrip is_space s = rw (space, lstrip) refl in
      ap ink dropped ∙ ink-lstrip s ∙ sym (ink_space c s space)
  | inr printed ↦
      let kept : lstrip is_space (c ∷ s) ≡ c ∷ s = rw (printed, lstrip) refl in ap ink kept
]

pub ink-rstrip : (s : Text) → ink (rstrip is_space s) ≡ ink s
unfolding rstrip
ink-rstrip [] = refl
ink-rstrip (c ∷ s) =
    let rest = rstrip is_space s in
    if_cases (λ t. ink t ≡ ink (c ∷ s)) (is_space c && is_empty rest) [] (c ∷ rest)
      (λ h.
        let both : (is_space c ≡ true) × (is_empty rest ≡ true) = (ground arith, ground arith) in
        sym (ink_space c s both.0 ∙ sym (ink-rstrip s) ∙ ink-empty rest both.1))
      (λ h.
        ink-append (c ∷ []) rest
        ∙ ap (λ t. ink (c ∷ []) ++ t) (ink-rstrip s)
        ∙ sym (ink-append (c ∷ []) s))

pub ink-strip : (s : Text) → ink (strip s) ≡ ink s
unfolding strip
ink-strip s = ink-rstrip (lstrip is_space s) ∙ ink-lstrip s

pub inks-full : (ts : List Text) → inks (full (map strip ts)) ≡ inks ts
inks-full [] = refl
inks-full (t ∷ ts) =
    let rest = full (map strip ts) in
    if_cases (λ us. inks us ≡ ink t ++ inks ts) (not (is_empty (strip t))) (strip t ∷ rest) rest
      (λ h. ap (λ u. u ++ inks rest) (ink-strip t) ∙ ap (λ u. ink t ++ u) (inks-full ts))
      (λ h.
        let nothing : is_empty (strip t) ≡ true = ground arith in
        let blank_ink : ink t ≡ [] = sym (ink-strip t) ∙ ink-empty (strip t) nothing in
        inks-full ts ∙ sym (ap (λ u. u ++ inks ts) blank_ink))

pub ink-join : (sep : Text) (ts : List Text) → ink sep ≡ [] → ink (join sep ts) ≡ inks ts
unfolding join
ink-join sep [] h = refl
ink-join sep (t ∷ []) h = sym (append-nil (ink t))
ink-join sep (t ∷ u ∷ ts) h =
    ink-append t (sep ++ join sep (u ∷ ts))
    ∙ ap (λ rest. ink t ++ rest)
        (ink-append sep (join sep (u ∷ ts))
          ∙ ap (λ x. x ++ ink (join sep (u ∷ ts))) h
          ∙ ink-join sep (u ∷ ts) h)

-- What a match takes is space.
ink-drop_break : (s : Text) → ink (drop (break_length s) s) ≡ ink s
unfolding break_length
ink-drop_break [] = refl
ink-drop_break (c ∷ s) =
    let more = break_length s in
    let here : ℕ = if c == b'\n' then 1 else 0 in
    let Kept : ℕ → Type 0 = λ n. ink (drop n (c ∷ s)) ≡ ink (c ∷ s) in
    if_cases Kept (is_space c) (if ltb 0 more then suc more else here) 0
      (λ space.
        let gone = sym (ink_space c s space) in
        if_cases Kept (ltb 0 more) (suc more) here (λ h. ink-drop_break s ∙ gone)
          (λ h. if_cases Kept (c == b'\n') 1 0 (λ h1. gone) (λ h1. refl)))
      (λ h. refl)

inks-cons_head : (c : ℕ) (ts : List Text) → inks (cons_head c ts) ≡ ink (c ∷ []) ++ inks ts
inks-cons_head c [] = refl
inks-cons_head c (t ∷ ts) =
    ap (λ u. u ++ inks ts) (ink-append (c ∷ []) t) ∙ append_assoc (ink (c ∷ [])) (ink t) (inks ts)

newline-space : (c : ℕ) (b : Bool) → (c == b'\n' && b) ≡ true → is_space c ≡ true
unfolding is_space
newline-space c b h = ground arith

inks-split_breaks : (skip : ℕ) (s : Text) → inks (split_breaks skip s) ≡ ink (drop skip s)
unfolding split_breaks
inks-split_breaks zero [] = refl
inks-split_breaks (suc skip) [] = refl
inks-split_breaks (suc skip) (c ∷ s) = inks-split_breaks skip s
inks-split_breaks zero (c ∷ s) =
    if_cases (λ ts. inks ts ≡ ink (c ∷ s)) (c == b'\n' && ltb 0 (break_length s))
      ([] ∷ split_breaks (break_length s) s) (cons_head c (split_breaks 0 s))
      (λ h.
        inks-split_breaks (break_length s) s
        ∙ ink-drop_break s
        ∙ sym (ink_space c s (newline-space c (ltb 0 (break_length s)) h)))
      (λ h.
        inks-cons_head c (split_breaks 0 s)
        ∙ ap (λ u. ink (c ∷ []) ++ u) (inks-split_breaks 0 s)
        ∙ sym (ink-append (c ∷ []) s))

-- The paragraphs of a text hold all of it but space, in its order.
pub inks-paragraphs : (s : Text) → inks (paragraphs s) ≡ ink s
unfolding paragraphs
inks-paragraphs s = inks-full (split_breaks 0 s) ∙ inks-split_breaks 0 s
