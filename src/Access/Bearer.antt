-- ===== src/Access/Bearer.antt =====
-- Which bearer is let in.
use joshua_ai.Base.{
  Bool, true, false, ◌&&◌, ◌||◌, Option, some, none, List, [], ◌∷◌, ◌++◌, ◌==◌, String_eq, List_eq,
  ℕ_eq, drop, ◌≡◌, refl, arith, ◌⊎◌, inl, list_beq_iff,
}
use joshua_ai.Base.Dict.{Dict}
use joshua_ai.Base.Text.{Text, starts_with}
use joshua_ai.Access.{bearer_prefix, is_ascii, match_token, identify_bearer, shut_out, authenticate}

-- Some entry of the table has this identity and this token.
unfoldable pub grants : Text → Text → Dict Text Text → Bool
grants identity presented [] = false
grants identity presented ((i, token) ∷ tokens) =
    (i == identity && presented == token) || grants identity presented tokens

match_token-grants :
    (presented identity : Text) (tokens : Dict Text Text) (matched : Option Text)
    → match_token presented tokens matched ≡ some (some identity)
    → (matched ≡ some identity) ⊎ (grants identity presented tokens ≡ true)
unfolding match_token grants
match_token-grants presented identity [] matched h = inl (cc)
match_token-grants presented identity ((i, token) ∷ tokens) matched h = ground (
  arith,
  match_token-grants presented identity tokens (some i),
  match_token-grants presented identity tokens matched,
  list_beq_iff i identity,
)

-- A bearer that is not ASCII is compared with no token: the comparison raises.
match_token_raises :
    (presented i token : Text) (tokens : Dict Text Text) (matched : Option Text)
    → is_ascii presented ≡ false
    → match_token presented ((i, token) ∷ tokens) matched ≡ none
unfolding match_token
match_token_raises presented i token tokens matched h = rw (h, match_token) refl

identified :
    (header identity : Text) (tokens : Dict Text Text)
    → identify_bearer (some header) tokens ≡ some (some identity)
    → (starts_with bearer_prefix header ≡ true) × (grants identity (drop 7 header) tokens ≡ true)
unfolding identify_bearer
identified header identity tokens h =
    ground (arith, match_token-grants (drop 7 header) identity tokens none)

admitted :
    (header : Text) (tokens : Dict Text Text) (allowed : Option (List Text)) (identity : Text)
    → authenticate (some header) tokens allowed ≡ some (200, some identity)
    → (identify_bearer (some header) tokens ≡ some (some identity))
      × (shut_out allowed identity ≡ false)
unfolding authenticate
admitted header tokens allowed identity h = go (identify_bearer (some header) tokens) refl h
  where
    go :
        (o : Option (Option Text))
        → identify_bearer (some header) tokens ≡ o
        → authenticate (some header) tokens allowed ≡ some (200, some identity)
        → (identify_bearer (some header) tokens ≡ some (some identity))
          × (shut_out allowed identity ≡ false)
    go none e h = absurd (ground arith)
    go (some none) e h = absurd (ground arith)
    go (some (some found)) e h = ground arith

-- A caller is let in only with a header that is `Bearer ` and the token of its identity in the
-- table, and only if the allowlist does not leave the identity out.
pub authenticate-grants :
    (header : Option Text) (tokens : Dict Text Text) (allowed : Option (List Text))
    (identity : Text)
    → authenticate header tokens allowed ≡ some (200, some identity)
    → (h : Text) × (header ≡ some h)
      × (starts_with bearer_prefix h ≡ true)
      × (grants identity (drop 7 h) tokens ≡ true)
      × (shut_out allowed identity ≡ false)
unfolding authenticate identify_bearer
authenticate-grants none tokens allowed identity h = cc
authenticate-grants (some header) tokens allowed identity h =
    let (bearer, room) = admitted header tokens allowed identity h in
    let (prefix, listed) = identified header identity tokens bearer in
    (header, refl, prefix, listed, room)

-- A header that is `Bearer ` and a text that is not ASCII is not answered 401: with any token in
-- the table, the comparison raises.
pub authenticate_raises :
    (presented i token : Text) (tokens : Dict Text Text) (allowed : Option (List Text))
    → is_ascii presented ≡ false
    → authenticate (some (bearer_prefix ++ presented)) ((i, token) ∷ tokens) allowed ≡ none
unfolding authenticate identify_bearer starts_with
authenticate_raises presented i token tokens allowed h =
    rw (match_token_raises presented i token tokens none h, authenticate, identify_bearer) refl
