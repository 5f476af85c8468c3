-- ===== src/Access/Tests.antt =====
-- Two identities and the headers of a request.
use joshua_ai.Base.{true, false, some, none, [], ◌∷◌, ◌++◌, drop, ◌≡◌, refl, List_eq, ℕ_eq}
use joshua_ai.Base.Dict.{Dict}
use joshua_ai.Base.Text.{Text, codes, strip, lower, starts_with, split}
use joshua_ai.Access.{
  bearer_prefix, match_token, identify_bearer, shut_out, authenticate, Known, Headers, Attribution,
  attribute, failed, unknown_role, header_value, check_person, check_role, check_group,
}
use joshua_ai.Access.Bearer.{grants, authenticate-grants, authenticate_raises}

program : Unit {0}
unfolding strip lower starts_with split match_token identify_bearer shut_out authenticate attribute
    header_value check_person check_role check_group grants
program = tt

abbrev tokens : Dict Text Text
tokens = (codes "core", codes "s3cret") ∷ (codes "channels", codes "other") ∷ []

abbrev header : Text
header = codes "Bearer s3cret"

core_is_let_in :
    authenticate (some header) tokens (some (codes " Core " ∷ [])) ≡ some (200, some (codes "core"))
unfolding program
core_is_let_in = refl

authenticate-grants_example :
    (h : Text) × (some header ≡ some h)
    × (starts_with bearer_prefix h ≡ true)
    × (grants (codes "core") (drop 7 h) tokens ≡ true)
    × (shut_out (some (codes " Core " ∷ [])) (codes "core") ≡ false)
authenticate-grants_example =
    authenticate-grants (some header) tokens (some (codes " Core " ∷ [])) (codes "core")
      core_is_let_in

authenticate_raises_example : authenticate (some (bearer_prefix ++ (233 ∷ []))) tokens none ≡ none
authenticate_raises_example =
    authenticate_raises (233 ∷ []) (codes "core") (codes "s3cret")
      ((codes "channels", codes "other") ∷ []) none refl

abbrev known : Known
known = record { persons = codes "alex" ∷ []; groups = codes "home" ∷ []; has_form = λ p. true }

abbrev headers : Headers
headers = record {
  person = some (codes " alex ");
  conversation = some (codes "c1");
  role = some (codes "member");
  group = some (codes " ");
}

abbrev alex : Attribution
alex = record {
  person = some (codes "alex");
  conversation = some (codes "c1");
  role = some (codes "member");
  group = none;
}

wrong_role :
    attribute (codes "core") (record headers { role = some (codes "admin") }) known
    ≡ failed (unknown_role (codes "admin"))
unfolding program
wrong_role = refl
