-- ===== src/Imessage/Names.antt =====
-- The names of attachments.
use joshua_ai.Base.{
  ℕ, Bool, false, List, [], ◌∷◌, ◌++◌, ◌==◌, ℕ_eq, List_eq, is_empty, elem, if_cases, ◌≡◌, refl,
  arith,
}
use joshua_ai.Base.Text.{Text, codes, strip, lstrip, rstrip, split, cons_head, is_space}
use joshua_ai.Imessage.Json.{Json, Python, as_str}
use joshua_ai.Imessage.Normalize.{safe_filename, last_piece, slashes}

-- No slash in a text.
abbrev pub NoSlash : Text → Type 0
NoSlash t = elem b'/' t ≡ false

lstrip-NoSlash : (p : ℕ → Bool) (t : Text) → NoSlash t → NoSlash (lstrip p t)
unfolding lstrip
lstrip-NoSlash p [] h = refl
lstrip-NoSlash p (c ∷ t) h = ground (arith, lstrip-NoSlash p t)

rstrip-NoSlash : (p : ℕ → Bool) (t : Text) → NoSlash t → NoSlash (rstrip p t)
unfolding rstrip
rstrip-NoSlash p [] h = refl
rstrip-NoSlash p (c ∷ t) h = ground (arith, rstrip-NoSlash p t)

strip-NoSlash : (t : Text) → NoSlash t → NoSlash (strip t)
unfolding strip
strip-NoSlash t h = rstrip-NoSlash is_space (lstrip is_space t) (lstrip-NoSlash is_space t h)

abbrev AllNoSlash : List Text → Type 0
AllNoSlash [] = Unit
AllNoSlash (t ∷ ts) = NoSlash t × AllNoSlash ts

cons_head-AllNoSlash :
    (c : ℕ) (ts : List Text) → (c == b'/') ≡ false → AllNoSlash ts → AllNoSlash (cons_head c ts)
cons_head-AllNoSlash c [] h all = (ground (arith, h), tt)
cons_head-AllNoSlash c (t ∷ ts) h all = (ground (arith, h, all.0), all.1)

split-AllNoSlash : (t : Text) → AllNoSlash (split b'/' t)
unfolding split
split-AllNoSlash [] = (refl, tt)
split-AllNoSlash (c ∷ t) =
    if_cases AllNoSlash (c == b'/') ([] ∷ split b'/' t) (cons_head c (split b'/' t))
      (λ _. (refl, split-AllNoSlash t))
      (λ other. cons_head-AllNoSlash c (split b'/' t) other (split-AllNoSlash t))

last_piece-NoSlash : (ts : List Text) → AllNoSlash ts → NoSlash (last_piece ts)
last_piece-NoSlash [] h = refl
last_piece-NoSlash (t ∷ []) h = h.0
last_piece-NoSlash (t ∷ u ∷ ts) h = last_piece-NoSlash (u ∷ ts) h.1

-- The texts of numbers have no slash, as documented for `str`.
abbrev pub Plain : Python → Type 0
Plain py = (n : ℕ) → NoSlash (py.str_of n)

pub safe_filename-NoSlash :
    (py : Python) (raw : Json) (i : ℕ) → Plain py → NoSlash (safe_filename py raw i)
unfolding safe_filename
safe_filename-NoSlash py raw i plain =
    if_cases NoSlash (is_empty (strip (last_piece (split b'/' (slashes (as_str raw))))))
      (codes "attachment-" ++ py.str_of i) (strip (last_piece (split b'/' (slashes (as_str raw)))))
      (λ _. plain i)
      (λ _. strip-NoSlash (last_piece (split b'/' (slashes (as_str raw)))) (
        last_piece-NoSlash (split b'/' (slashes (as_str raw)))
          (split-AllNoSlash (slashes (as_str raw)))))

pub is_empty-safe_filename :
    (py : Python) (raw : Json) (i : ℕ) → is_empty (safe_filename py raw i) ≡ false
unfolding safe_filename
is_empty-safe_filename py raw i =
    if_cases (λ (t : Text). is_empty t ≡ false)
      (is_empty (strip (last_piece (split b'/' (slashes (as_str raw))))))
      (codes "attachment-" ++ py.str_of i) (strip (last_piece (split b'/' (slashes (as_str raw)))))
      (λ _. refl) (λ full. full)
