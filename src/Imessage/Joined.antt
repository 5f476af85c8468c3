-- ===== src/Imessage/Joined.antt =====
-- Texts joined from the parts that are not empty.
use joshua_ai.Base.{
  false, not, List, [], ◌∷◌, ◌++◌, ℕ_eq, List_eq, Pair_eq, is_empty, if_cases, ◌≡◌, ◌⊎◌, refl, ap,
  sym, ◌∙◌, arith, Bool-cases, inl, inr,
}
use mathlib.Core.List.{append_assoc, append-nil}
use joshua_ai.Base.Text.{Text, join}
use joshua_ai.Imessage.Forwarder.{full}

full-append : (ts us : List Text) → full (ts ++ us) ≡ full ts ++ full us
full-append [] us = refl
full-append (t ∷ ts) us = ground (arith, full-append ts us)

full-cases :
    (ts : List Text)
    → (full ts ≡ []) ⊎ ((u : Text) × (us : List Text) × (full ts ≡ u ∷ us) × (is_empty u ≡ false))
full-cases [] = inl refl
full-cases (t ∷ ts) = elim (Bool-cases (is_empty t)) [
  | inl blank ↦ rw blank (full-cases ts)
  | inr solid ↦ rw solid (inr (t, full ts, refl, solid))
]

join-append_one :
    (sep u : Text) (us : List Text) (t : Text)
    → join sep (u ∷ us ++ t ∷ []) ≡ join sep (u ∷ us) ++ (sep ++ t)
unfolding join
join-append_one sep u [] t = refl
join-append_one sep u (v ∷ us) t =
    ap (λ q. u ++ (sep ++ q)) (join-append_one sep v us t)
    ∙ ap (λ q. u ++ q) (sym (append_assoc sep (join sep (v ∷ us)) (sep ++ t)))
    ∙ sym (append_assoc u (sep ++ join sep (v ∷ us)) (sep ++ t))

is_empty-join :
    (sep u : Text) (us : List Text) → is_empty u ≡ false → is_empty (join sep (u ∷ us)) ≡ false
unfolding join
is_empty-join sep [] us h = ground arith
is_empty-join sep (c ∷ u) [] h = refl
is_empty-join sep (c ∷ u) (v ∷ us) h = refl

-- A text that is joined from the full parts of a list is one more part.
pub join-full :
    (sep : Text) (ts : List Text) (t : Text)
    → join sep (full (join sep (full ts) ∷ t ∷ [])) ≡ join sep (full (ts ++ t ∷ []))
unfolding join
join-full sep ts t = elim (full-cases ts) [
  | inl none_full ↦ rw (full-append ts (t ∷ []), none_full) refl
  | inr (u, us, parts, solid) ↦
      rw (full-append ts (t ∷ []), parts, is_empty-join sep u us solid)
        (if_cases (λ (q : List Text). join sep (join sep (u ∷ us) ∷ q) ≡ join sep (u ∷ us ++ q))
          (not (is_empty t)) (t ∷ []) [] (λ _. sym (join-append_one sep u us t))
          (λ _. ap (λ q. join sep (u ∷ q)) (sym (append-nil us))))
]
