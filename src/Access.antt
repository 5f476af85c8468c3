-- ===== src/Access.antt =====
-- Who calls and for whom: shared/joshua_shared/fleet_auth.py (the bearer of a fleet identity) and
-- gateway/joshua_gateway/person.py (the person, role and group that core asserts). The pattern of
-- person ids is a parameter.
pub mod Bearer
pub mod Asserted
mod Tests
use joshua_ai.Base.{
  ℕ, String, Bool, true, false, not, ◌&&◌, ◌||◌, Option, some, none, List, [], ◌∷◌, ◌==◌, String_eq,
  List_eq, ℕ_eq, ltb, is_empty, elem, if◌then◌else◌, all, keep_if, map, drop,
}
use joshua_ai.Base.Dict.{Dict}
use joshua_ai.Base.Text.{Text, codes, strip, lower, split, starts_with}

abbrev pub bearer_prefix : Text
bearer_prefix = codes "Bearer "

-- `hmac.compare_digest` on two strings: `none` is the TypeError for a string that is not ASCII.
abbrev pub is_ascii : Text → Bool
is_ascii s = all (λ c. ltb c 128) s

abbrev pub compare_digest : Text → Text → Option Bool
compare_digest a b = if is_ascii a && is_ascii b then some (a == b) else none

-- The loop of `identify_bearer`: no early exit, the last match wins. The outer `none` is the raise.
unfoldable pub match_token : Text → Dict Text Text → Option Text → Option (Option Text)
match_token presented [] matched = some matched
match_token presented ((identity, token) ∷ tokens) matched =
    let hit = match_token presented tokens (some identity) in
    let miss = match_token presented tokens matched in
    elim (compare_digest presented token) [ none ↦ none | some same ↦ if same then hit else miss ]

unfoldable pub identify_bearer : Option Text → Dict Text Text → Option (Option Text)
identify_bearer none tokens = some none
identify_bearer (some header) tokens =
    let matched = match_token (drop 7 header) tokens none in
    if starts_with bearer_prefix header then matched else some none

-- The names that are left when the blank ones go, in lower case.
abbrev pub callers : List Text → List Text
callers names =
    map (λ name. lower (strip name)) (keep_if (λ name. not (is_empty (strip name))) names)

-- `parse_callers`
abbrev pub parse_callers : Text → List Text
parse_callers value = callers (split b',' value)

-- Whether the allowlist, if there is one, leaves the identity out.
unfoldable pub shut_out : Option (List Text) → Text → Bool
shut_out none identity = false
shut_out (some names) identity =
    not (is_empty (callers names)) && not (elem identity (callers names))

abbrev pub judged : Option (List Text) → Option Text → ℕ × Option Text
judged allowed none = (401, none)
judged allowed (some identity) =
    if shut_out allowed identity then (403, some identity) else (200, some identity)

unfoldable pub authenticate :
    Option Text → Dict Text Text → Option (List Text) → Option (ℕ × Option Text)
authenticate header tokens allowed = elim (identify_bearer header tokens) [
  | none ↦ none
  | some matched ↦ some (judged allowed matched)
]

-- person.py
pub record Attribution : Type 0 where
  pub person : Option Text
  pub conversation : Option Text
  pub role : Option Text
  pub group : Option Text

pub data PersonError : Type 0 where
  unknown_person unknown_role unknown_group : Text → PersonError

pub data Attributed : Type 0 where
  attributed : Attribution → Attributed
  failed : PersonError → Attributed

abbrev pub unknown : Text
unknown = codes "unknown"

abbrev pub trusted_identities : List Text
trusted_identities = codes "core" ∷ []

abbrev pub roles : List Text
roles = codes "member" ∷ codes "guest" ∷ []

-- `(header or "").strip() or None`
unfoldable pub header_value : Option Text → Option Text
header_value none = none
header_value (some header) = let value = strip header in if is_empty value then none else some value

-- What core knows: the people, the groups and the test on the form of a person's id.
pub record Known : Type 0 where
  pub persons : List Text
  pub groups : List Text
  pub has_form : Text → Bool

pub record Headers : Type 0 where
  pub person : Option Text
  pub conversation : Option Text
  pub role : Option Text
  pub group : Option Text

abbrev pub is_person : Known → Text → Bool
is_person known p = p == unknown || (known.has_form p && elem p known.persons)

-- The three checks, in order: each is left out when its header is.
unfoldable pub check_person : Known → Option Text → Option PersonError
check_person known none = none
check_person known (some p) = if is_person known p then none else some (unknown_person p)

unfoldable pub check_role : Option Text → Option PersonError
check_role none = none
check_role (some r) = if elem r roles then none else some (unknown_role r)

unfoldable pub check_group : Known → Option Text → Option PersonError
check_group known none = none
check_group known (some g) = if elem g known.groups then none else some (unknown_group g)

abbrev pub first_error : Option PersonError → Option PersonError → Option PersonError
first_error none e = e
first_error (some e) _ = some e

abbrev pub nobody : Attribution
nobody = record { person = none; conversation = none; role = none; group = none }

abbrev pub asserted : Headers → Attribution
asserted h = record {
  person = header_value h.person;
  conversation = header_value h.conversation;
  role = header_value h.role;
  group = header_value h.group;
}

abbrev pub error_in : Known → Headers → Option PersonError
error_in known h =
    first_error (check_person known (header_value h.person))
      (first_error (check_role (header_value h.role)) (check_group known (header_value h.group)))

unfoldable pub attribute : Text → Headers → Known → Attributed
attribute identity h known =
    if elem identity trusted_identities
    then (elim (error_in known h) [ none ↦ attributed (asserted h) | some e ↦ failed e ])
    else attributed nobody
