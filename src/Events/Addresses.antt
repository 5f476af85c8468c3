-- ===== src/Events/Addresses.antt =====
-- The channels that an id or a logical reference stands for: `resolve_channel` of
-- core/joshua_core/store/repo.py.
use joshua_ai.Base.{
  String, Bool, true, ◌&&◌, Option, some, none, List, [], ◌∷◌, ◌==◌, ℕ_eq, String_eq, Option_eq,
  keep_if, All, All-keep_if, All-always, Option-cases, if_cases, eq_of_beq, ◌≡◌, subst, arith, ◌⊎◌,
  inl, inr,
}
use joshua_ai.Base.Dict
use joshua_ai.Turns.{Channel, Store, SessionMode, per_person, shared}
use joshua_ai.Events.{
  Env, split_ref, first_by, is_of, find_channels, resolve_logical, resolve_channel,
}

-- If there is a channel, it is one of these.
abbrev pub AllSome : (Channel → Type 0) → Option Channel → Type 0
AllSome P none = Unit
AllSome P (some c) = P c

AllSome-imp :
    (P Q : Channel → Type 0) (o : Option Channel)
    → ((c : Channel) → P c → Q c)
    → AllSome P o
    → AllSome Q o
AllSome-imp P Q none imp h = tt
AllSome-imp P Q (some c) imp h = imp c h

first_by-AllSome :
    (P : Channel → Type 0) (before : String → String → Bool) (cs : List Channel)
    → All P cs
    → AllSome P (first_by before cs)
unfolding first_by
first_by-AllSome P before [] hs = tt
first_by-AllSome P before (c ∷ cs) hs = elim (Option-cases (first_by before cs)) [
  | inl nobody ↦ rw (nobody, first_by) hs.0
  | inr (d, found) ↦
      let first = subst (AllSome P) found (first_by-AllSome P before cs hs.1) in
      rw (found, first_by) (if_cases P (before d.id c.id) d c (λ _. first) (λ _. hs.0))
]

found-AllSome :
    (before : String → String → Bool) (test : Channel → Bool) (st : Store)
    → AllSome (λ c. test c ≡ true) (first_by before (find_channels test st))
unfolding find_channels
found-AllSome before test st =
    let cs = Dict.values st.channels in
    first_by-AllSome (λ c. test c ≡ true) before (keep_if test cs)
      (All-keep_if {Q = λ c. Unit {0}} test cs (λ c kept _. kept) (All-always cs (λ c. tt)))

is_of-eq :
    (channel_type : String) (mode : SessionMode) (c : Channel)
    → is_of channel_type mode c ≡ true
    → (c.channel_type ≡ channel_type) × (c.session_mode ≡ mode)
is_of-eq channel_type per_person c h =
    (ground (arith, eq_of_beq c.channel_type channel_type), ground arith)
is_of-eq channel_type shared c h =
    (ground (arith, eq_of_beq c.channel_type channel_type), ground arith)

-- The channels that a logical reference, split at its colons, may stand for.
abbrev pub Logical : List String → Channel → Type 0
Logical (channel_type ∷ kind ∷ []) c =
    (kind ≡ "group") × (c.channel_type ≡ channel_type) × (c.session_mode ≡ shared)
Logical (channel_type ∷ kind ∷ person ∷ []) c =
    (kind ≡ "dm")
    × (c.channel_type ≡ channel_type)
    × (c.session_mode ≡ per_person)
    × (c.default_person_id ≡ some person)
Logical _ c = ⊥

-- The channel with that id, or one that the logical reference stands for.
abbrev pub Addressed : Store → String → Channel → Type 0
Addressed st ref c = (Dict.get ref st.channels ≡ some c) ⊎ Logical (split_ref ref) c

Logical-AllSome :
    (env : Env) (parts : List String) (st : Store)
    → AllSome (Logical parts) (resolve_logical env parts st)
unfolding resolve_logical
Logical-AllSome env [] st = tt
Logical-AllSome env (t ∷ []) st = tt
Logical-AllSome env (t ∷ kind ∷ []) st =
    if_cases (AllSome (Logical (t ∷ kind ∷ []))) (kind == "group")
      (first_by env.before (find_channels (is_of t shared) st)) none
      (λ h.
        AllSome-imp (λ c. is_of t shared c ≡ true) (Logical (t ∷ kind ∷ []))
          (first_by env.before (find_channels (is_of t shared) st))
          (λ c test.
            let same = is_of-eq t shared c test in (eq_of_beq kind "group" h, same.0, same.1))
          (found-AllSome env.before (is_of t shared) st))
      (λ h. tt)
Logical-AllSome env (t ∷ kind ∷ person ∷ []) st =
    let test : Channel → Bool = λ c. is_of t per_person c && c.default_person_id == some person in
    if_cases (AllSome (Logical (t ∷ kind ∷ person ∷ []))) (kind == "dm")
      (first_by env.before (find_channels test st)) none
      (λ h.
        AllSome-imp (λ c. test c ≡ true) (Logical (t ∷ kind ∷ person ∷ []))
          (first_by env.before (find_channels test st))
          (λ c passed.
            let same = is_of-eq t per_person c (ground arith) in
            let person_too : (c.default_person_id == some person) ≡ true = ground arith in
            (
              eq_of_beq kind "dm" h,
              same.0,
              same.1,
              eq_of_beq c.default_person_id (some person) person_too,
            ))
          (found-AllSome env.before test st))
      (λ h. tt)
Logical-AllSome env (t ∷ kind ∷ person ∷ more ∷ parts) st = tt

pub resolve_channel-AllSome :
    (env : Env) (ref : String) (st : Store)
    → AllSome (Addressed st ref) (resolve_channel env ref st)
unfolding resolve_channel
resolve_channel-AllSome env ref st = elim (Option-cases (Dict.get ref st.channels)) [
  | inl missing ↦
      rw (missing, resolve_channel)
        (AllSome-imp (Logical (split_ref ref)) (Addressed st ref)
          (resolve_logical env (split_ref ref) st) (λ c l. inr l)
          (Logical-AllSome env (split_ref ref) st))
  | inr (c, found) ↦ rw (found, resolve_channel) (inl found)
]
