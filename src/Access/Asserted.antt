-- ===== src/Access/Asserted.antt =====
-- What an attribution may assert.
use joshua_ai.Base.{Bool, true, false, Option, some, none, ◌≡◌, List_eq, ℕ_eq, elem}
use joshua_ai.Base.Text.{Text}
use joshua_ai.Access.{Attribution, Known, is_person, roles, trusted_identities, nobody}

-- A text, if there is one, that passes a test.
abbrev pub Passes : (Text → Bool) → Option Text → Type 0
Passes p none = Unit
Passes p (some s) = p s ≡ true

abbrev pub Sound : Text → Known → Attribution → Type 0
Sound identity known a =
    ((elem identity trusted_identities ≡ false) → a ≡ nobody)
    × Passes (is_person known) a.person
    × Passes (λ r. elem r roles) a.role
    × Passes (λ g. elem g known.groups) a.group
