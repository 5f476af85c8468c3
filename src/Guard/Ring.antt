-- ===== src/Guard/Ring.antt =====
-- `deque(maxlen=n)`: an append beyond `n` entries drops the oldest.
use joshua_ai.Base.{
  ℕ, suc, ◌-◌, ◌≤◌, List, [], ◌∷◌, ◌++◌, ◌≡◌, if◌then◌else◌, ltb, length, drop, arith,
  length-append, length-drop, drop-append, Bool-cases, inl, inr, ◌∙◌, ap, drop_one-drop,
}

module _ {ℓ} {A : Type ℓ} where
  unfoldable pub append_bounded : ℕ → List A → A → List A
  append_bounded n xs x = let ys = xs ++ x ∷ [] in if ltb n (length ys) then drop 1 ys else ys

  -- The last `n` entries.
  abbrev pub last : ℕ → List A → List A
  last n xs = drop (length xs - n) xs

  pub length-append_bounded :
      (n : ℕ) (xs : List A) (x : A) → length xs ≤ n → length (append_bounded n xs x) ≤ n
  unfolding append_bounded
  length-append_bounded n xs x h =
      ground (arith, length-append xs (x ∷ []), length-drop 1 (xs ++ x ∷ []))

  -- Appending to the kept suffix of a log keeps the suffix of the longer log.
  pub append_bounded-last :
      (n : ℕ) (log : List A) (x : A)
      → append_bounded (suc n) (last (suc n) log) x ≡ last (suc n) (log ++ x ∷ [])
  unfolding append_bounded
  append_bounded-last n log x =
      let kept = length log - suc n in
      let whole = log ++ x ∷ [] in
      let size = length-append log (x ∷ []) in
      rw (← drop-append kept log (x ∷ []) (omega arith))
        (elim (Bool-cases (ltb (suc n) (length (drop kept whole)))) [
          | inl full ↦ rw full (
              drop_one-drop kept whole
              ∙ ap (λ k. drop k whole) {x = suc kept}
                  (ground (arith, size, length-drop kept whole)))
          | inr room ↦
              rw room
                (ap (λ k. drop k whole) {x = kept} (ground (arith, size, length-drop kept whole)))
        ])
