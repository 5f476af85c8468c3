-- ===== src/Grants/Tests.antt =====
-- Grants on a small history, and the theorem on it.
use joshua_ai.Base.{String, true, List, [], ◌∷◌, ◌≡◌, refl, String_eq}
use joshua_ai.Base.Dict
use joshua_ai.Grants.{trim, move_to_end, touch, add_urls, grant, is_granted, find_urls}
use joshua_ai.Grants.Given.{Call, after, was_given, is_granted-was_given}

program : Unit {0}
unfolding Dict.get Dict.put Dict.has Dict.remove trim move_to_end touch add_urls grant is_granted
    after was_given find_urls
program = tt

-- A canonical form that drops nothing.
abbrev as_written : String → String
as_written url = url

abbrev history : List Call
history =
    ("b", "https://example.net/" ∷ [])
    ∷ ("a", "https://example.com/x" ∷ "https://example.com/y" ∷ [])
    ∷ []

asked_page_is_granted :
    is_granted as_written "a" "https://example.com/y" (after as_written history) ≡ true
unfolding program
asked_page_is_granted = refl

duplicates_go : find_urls ("u" ∷ "" ∷ "v" ∷ "u" ∷ []) [] ≡ "u" ∷ "v" ∷ []
unfolding program
duplicates_go = refl

is_granted-was_given_example : was_given as_written "a" "https://example.com/y" history ≡ true
is_granted-was_given_example =
    is_granted-was_given as_written history "a" "https://example.com/y" asked_page_is_granted
