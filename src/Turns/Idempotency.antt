-- ===== src/Turns/Idempotency.antt =====
-- `SeenCache` of core/joshua_core/turns.py.
use joshua_ai.Base.{
  ℕ, ◌+◌, ◌≤◌, String, Bool, true, false, some, [], ◌∷◌, ◌≡◌, refl, ◌∙◌, String_eq, if◌then◌else◌,
  ltb, arith, Bool-cases, inl, inr,
}
use joshua_ai.Base.Dict
use joshua_ai.Base.Dict.{Dict}
use text.Mathlib.TextEquality.{eq_iff}

-- `seen_at` of each key.
abbrev pub Seen : Type 0
Seen = Dict String ℕ

abbrev pub seen_ttl : ℕ
seen_ttl = 900

-- `_purge`: `seen_at < now - ttl`, with the subtraction moved to the other side.
unfoldable pub purge : ℕ → Seen → Seen
purge now [] = []
purge now ((key, seen_at) ∷ rest) =
    let kept = purge now rest in
    if ltb (seen_at + seen_ttl) now then kept else (key, seen_at) ∷ kept

unfoldable pub check_and_add : String → ℕ → Seen → Bool × Seen
check_and_add key now seen =
    let kept = purge now seen in
    if Dict.has key kept then (true, kept) else (false, Dict.put key now kept)

-- The key was added at a time from which `now` is at most the window away.
abbrev pub Fresh : String → ℕ → Seen → Type 0
Fresh key t seen = (at : ℕ) × (Dict.get key seen ≡ some at) × (t ≤ at)

get-purge :
    (key : String) (now at : ℕ) (seen : Seen)
    → Dict.get key seen ≡ some at
    → now ≤ at + seen_ttl
    → Dict.get key (purge now seen) ≡ some at
unfolding Dict.get purge
get-purge key now at [] h le = h
get-purge key now at ((k, v) ∷ rest) h le = ground (arith, get-purge key now at rest)

-- A call within the window of a fresh key keeps it, whatever key the call is about.
pub check_and_add-Fresh :
    (key other : String) (t now : ℕ) (seen : Seen)
    → t ≤ now
    → now ≤ t + seen_ttl
    → Fresh key t seen
    → Fresh key t (check_and_add other now seen).1
unfolding check_and_add Dict.has
check_and_add-Fresh key other t now seen h le (at, e, later) =
    let kept_key = get-purge key now at seen e (omega arith) in
    elim (Bool-cases (Dict.has other (purge now seen))) [
      | inl found ↦ rw found (at, kept_key, later)
      | inr absent ↦ rw absent (
        at,
        ground (
          arith,
          kept_key,
          absent,
          Dict.get-put other key now (purge now seen),
          eq_iff other key,
        ),
        later,
      )
    ]

has-check_and_add :
    (key : String) (now : ℕ) (seen : Seen)
    → Dict.has key (purge now seen) ≡ (check_and_add key now seen).0
unfolding check_and_add
has-check_and_add key now seen = ground arith

-- After a call its key is fresh, if times do not fall.
pub check_and_add_adds :
    (key : String) (now : ℕ) (seen : Seen)
    → (check_and_add key now seen).0 ≡ false
    → Fresh key now (check_and_add key now seen).1
unfolding check_and_add
check_and_add_adds key now seen e =
    let absent : Dict.has key (purge now seen) ≡ false = has-check_and_add key now seen ∙ e in
    rw absent
      (now, ground (arith, Dict.get-put key key now (purge now seen), eq_iff key key), omega arith)

-- A fresh key is found.
pub Fresh-check_and_add :
    (key : String) (t now : ℕ) (seen : Seen)
    → now ≤ t + seen_ttl
    → Fresh key t seen
    → (check_and_add key now seen).0 ≡ true
unfolding check_and_add Dict.has
Fresh-check_and_add key t now seen le (at, e, later) =
    rw (get-purge key now at seen e (omega arith)) refl
