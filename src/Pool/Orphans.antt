-- ===== src/Pool/Orphans.antt =====
-- What the pool's limit does to a session that was just made.
use joshua_ai.Base.{
  if_true, ℕ, ◌+◌, ◌≤◌, String, Bool, true, false, not, some, none, List, [], ◌∷◌, ◌++◌, ◌==◌, ℕ_eq,
  String_eq, ltb, length, keep_if, All, All-imp, ◌≡◌, refl, arith, if_cases, Bool-cases,
  Option-cases, inl, inr, eq_of_beq, beq_self, ap, sym, subst, ◌∙◌, length-append,
}
use joshua_ai.Base.Dict
use joshua_ai.Base.Dict.{Dict, values}
use joshua_ai.Pool.Defs.{
  Conversation, Managed, Pool, free, closing, Settings, Build, modify, closed, connect_and_lock,
  is_locked, drop_session, last_used_of, insert_by, sort_by, idle, victims, over_limit, added,
  built, get_or_create, proceed, is_free,
}
use joshua_ai.Pool.Steps.{Event, start_turn, take_lock, go_on, without, step, run}
use joshua_ai.Pool.Running.{get-modify}

-- A turn of a conversation that is not in the pool, up to its lock.
abbrev pub cold_turn : Conversation → ℕ → Build → ℕ → List Event
cold_turn c now b ref = start_turn c now b ∷ go_on ∷ go_on ∷ take_lock ref now ∷ []

-- Every session of the pool runs a turn.
abbrev pub AllBusy : Pool → Type 0
AllBusy s = All (λ ref. is_locked s ref ≡ true) (values s.pool)

-- A number that names no object yet.
abbrev pub IsNew : ℕ → Pool → Type 0
IsNew ref s = Dict.has ref s.objects ≡ false

get-modify_self :
    (ref : ℕ) (f : Managed → Managed) (m : Managed) (d : Dict ℕ Managed)
    → Dict.get ref d ≡ some m
    → Dict.get ref (modify ref f d) ≡ some (f m)
unfolding modify Dict.get
get-modify_self ref f m [] h = cc
get-modify_self ref f m ((r, o) ∷ d) h =
    if_cases (λ e. Dict.get ref e ≡ some (f m)) (r == ref) ((r, f o) ∷ d) ((r, o) ∷ modify ref f d)
      (λ same. let first : o ≡ m = ground arith in rw (same, first) refl)
      (λ other.
        let rest : Dict.get ref d ≡ some m = ground arith in
        rw other (get-modify_self ref f m d rest))

remove-put_new :
    (k : String) (v : ℕ) (d : Dict String ℕ)
    → Dict.has k d ≡ false
    → Dict.remove k (Dict.put k v d) ≡ d
unfolding Dict.has Dict.get Dict.put Dict.remove
remove-put_new k v [] h = rw (beq_self k) refl
remove-put_new k v ((j, w) ∷ d) h = ground (arith, remove-put_new k v d)

get_absent : (k : String) (d : Dict String ℕ) → Dict.has k d ≡ false → Dict.get k d ≡ none
unfolding Dict.has
get_absent k d h = elim (Option-cases (Dict.get k d)) [
  | inl missing ↦ missing
  | inr (v, found) ↦ absurd (ground arith)
]

-- A busy object is not a new one.
busy-old : (ref new : ℕ) (s : Pool) → is_locked s ref ≡ true → IsNew new s → (new == ref) ≡ false
unfolding is_locked Dict.has
busy-old ref new s held fresh = elim (Bool-cases (new == ref)) [
  | inl same ↦
      let equal : new ≡ ref = eq_of_beq new ref same in
      elim (Option-cases (Dict.get ref s.objects)) [
        | inl missing ↦ absurd (ground arith)
        | inr (m, found) ↦ absurd (ground arith)
      ]
  | inr different ↦ different
]

-- Where two pools agree on an object, it is busy in both.
busy_kept :
    (ref : ℕ) (s t : Pool)
    → Dict.get ref t.objects ≡ Dict.get ref s.objects
    → is_locked t ref ≡ is_locked s ref
unfolding is_locked
busy_kept ref s t e = rw (e, is_locked) refl

values-append : (d e : Dict String ℕ) → values (d ++ e) ≡ values d ++ values e
values-append [] e = refl
values-append ((k, v) ∷ d) e = ap (λ vs. v ∷ vs) (values-append d e)

-- Where all but the last are left out, the last is what is kept.
keep_if-last :
    (p : ℕ → Bool) (xs : List ℕ) (x : ℕ)
    → All (λ y. p y ≡ false) xs
    → p x ≡ true
    → keep_if p (xs ++ x ∷ []) ≡ x ∷ []
keep_if-last p [] x none_ kept = rw kept refl
keep_if-last p (y ∷ ys) x none_ kept = rw (none_.0) (keep_if-last p ys x none_.1 kept)

module _ (cfg : Settings) (c : Conversation) (now : ℕ) (b : Build) (s : Pool) (busy : AllBusy s)
    (fresh : IsNew s.next_ref s) (absent : Dict.has c.id s.pool ≡ false) (open_ : s.section ≡ free)
    (full : cfg.pool_max ≤ length s.pool) where
  new_object : Dict.get s.next_ref (added c now b s).objects ≡ some (built s.next_session c now b)
  new_object =
      Dict.get-put s.next_ref s.next_ref (built s.next_session c now b) s.objects
      ∙ rw (beq_self s.next_ref) refl

  old_object :
      (ref : ℕ)
      → (s.next_ref == ref) ≡ false
      → Dict.get ref (added c now b s).objects ≡ Dict.get ref s.objects
  old_object ref other =
      Dict.get-put s.next_ref ref (built s.next_session c now b) s.objects ∙ rw other refl

  still_busy : (ref : ℕ) → is_locked s ref ≡ true → not (is_locked (added c now b s) ref) ≡ false
  still_busy ref held =
      let same =
        busy_kept ref s (added c now b s) (old_object ref (busy-old ref s.next_ref s held fresh)) in
      rw (same, held) refl

  -- The idle sessions of the pool after a new one was added to it: the new one alone.
  idle-added : idle (added c now b s) ≡ s.next_ref ∷ []
  unfolding idle sort_by insert_by is_locked
  idle-added =
      let p : ℕ → Bool = λ ref. not (is_locked (added c now b s) ref) in
      let all : values (added c now b s).pool ≡ values s.pool ++ s.next_ref ∷ [] =
        ap values (Dict.put_new c.id s.next_ref s.pool absent)
        ∙ values-append s.pool ((c.id, s.next_ref) ∷ []) in
      let none_ : All (λ ref. p ref ≡ false) (values s.pool) =
        All-imp (values s.pool) (λ ref held. still_busy ref held) busy in
      let one : p s.next_ref ≡ true = rw (new_object, is_locked) refl in
      ap (sort_by (last_used_of (added c now b s)))
        (ap (keep_if p) all ∙ keep_if-last p (values s.pool) s.next_ref none_ one)

  over-added : over_limit cfg.pool_max (added c now b s) ≡ s.next_ref ∷ []
  unfolding victims
  over-added =
      let size : length (added c now b s).pool ≡ length s.pool + 1 =
        ap length (Dict.put_new c.id s.next_ref s.pool absent)
        ∙ length-append s.pool ((c.id, s.next_ref) ∷ []) in
      let over : ltb cfg.pool_max (length (added c now b s).pool) ≡ true = ground arith in
      ap (victims cfg.pool_max (length (added c now b s).pool)) idle-added
      ∙ if_true (ltb cfg.pool_max (length (added c now b s).pool)) (s.next_ref ∷ []) [] over

  -- The pool after the turn has its lock: as it was, with a running object beside it.
  abbrev pub beside : Pool
  beside = record s {
    objects =
        modify s.next_ref (connect_and_lock now)
          (modify s.next_ref closed (added c now b s).objects);
    next_ref = s.next_ref + 1;
    next_session = s.next_session + 1;
    section = free;
  }

  -- The pool while the new session is the one to close, and after that.
  abbrev choosing : Pool
  choosing = record (added c now b s) { section = closing (s.next_ref ∷ []) (some s.next_ref) }

  abbrev dropped : Pool
  dropped = record s {
    objects = modify s.next_ref closed (added c now b s).objects;
    next_ref = s.next_ref + 1;
    next_session = s.next_session + 1;
    section = closing [] (some s.next_ref);
  }

  first_step : step cfg (start_turn c now b) s ≡ choosing
  unfolding step get_or_create
  first_step =
      if_true (is_free s.section) (get_or_create cfg c now b s) s (ap is_free open_)
      ∙ (rw (get_absent c.id s.pool absent, get_or_create)
          (ap (λ refs. record (added c now b s) { section = closing refs (some s.next_ref) })
            over-added))

  second_step : step cfg go_on choosing ≡ dropped
  unfolding step proceed drop_session
  second_step =
      rw (new_object, drop_session)
        (ap (λ d. record dropped { pool = d }) (remove-put_new c.id s.next_ref s.pool absent))

  last_steps : run cfg (go_on ∷ take_lock s.next_ref now ∷ []) dropped ≡ beside
  unfolding run step proceed without is_locked
  last_steps =
      let shut : Dict.get s.next_ref dropped.objects
          ≡ some (closed (built s.next_session c now b)) =
        get-modify_self s.next_ref closed (built s.next_session c now b) (added c now b s).objects
          new_object in
      rw (beq_self s.next_ref, shut, is_locked) refl

  cold_turn_lem : run cfg (cold_turn c now b s.next_ref) s ≡ beside
  unfolding run
  cold_turn_lem =
      ap (run cfg (go_on ∷ go_on ∷ take_lock s.next_ref now ∷ [])) first_step
      ∙ ap (run cfg (go_on ∷ take_lock s.next_ref now ∷ [])) second_step
      ∙ last_steps

  beside_new :
      Dict.get s.next_ref beside.objects
      ≡ some (connect_and_lock now (closed (built s.next_session c now b)))
  beside_new =
      get-modify_self s.next_ref (connect_and_lock now) (closed (built s.next_session c now b))
        (modify s.next_ref closed (added c now b s).objects)
        (get-modify_self s.next_ref closed (built s.next_session c now b) (added c now b s).objects
          new_object)

  beside_old :
      (ref : ℕ) → (s.next_ref == ref) ≡ false → Dict.get ref beside.objects ≡ Dict.get ref s.objects
  beside_old ref other =
      get-modify s.next_ref ref (connect_and_lock now)
        (modify s.next_ref closed (added c now b s).objects) other
      ∙ get-modify s.next_ref ref closed (added c now b s).objects other
      ∙ old_object ref other

  beside-AllBusy : AllBusy beside
  beside-AllBusy =
      All-imp (values s.pool)
        (λ ref held.
          busy_kept ref s beside (beside_old ref (busy-old ref s.next_ref s held fresh)) ∙ held)
        busy

  beside-IsNew : (ref : ℕ) → (s.next_ref == ref) ≡ false → IsNew ref s → IsNew ref beside
  unfolding Dict.has
  beside-IsNew ref other new = rw (beside_old ref other) new

-- A turn of the conversation runs on this object.
abbrev pub Runs : Conversation → ℕ → Pool → Type 0
Runs c ref s =
    (m : Managed) × (Dict.get ref s.objects ≡ some m) × (m.locked ≡ true) × (m.conversation ≡ c)

run-append :
    (cfg : Settings) (es fs : List Event) (s : Pool)
    → run cfg (es ++ fs) s ≡ run cfg fs (run cfg es s)
unfolding run
run-append cfg [] fs s = refl
run-append cfg (e ∷ es) fs s = run-append cfg es fs (step cfg e s)

-- When the pool is full of running turns, the session made for one more conversation is itself the
-- one that the pool's limit closes and takes out. Its turn runs beside the pool, and a second turn
-- of the same conversation gets another session and runs at the same time: nothing serializes the
-- two, and neither session is in the pool, where the reaper would find it.
pub cold_turns_overlap :
    (cfg : Settings) (c : Conversation) (now : ℕ) (b : Build) (s : Pool)
    → AllBusy s
    → IsNew s.next_ref s
    → IsNew (s.next_ref + 1) s
    → Dict.has c.id s.pool ≡ false
    → s.section ≡ free
    → cfg.pool_max ≤ length s.pool
    → let t = run cfg (cold_turn c now b s.next_ref ++ cold_turn c now b (s.next_ref + 1)) s in
      Runs c s.next_ref t × Runs c (s.next_ref + 1) t × (t.pool ≡ s.pool)
cold_turns_overlap cfg c now b s busy new next absent open_ full =
    let t = beside cfg c now b s busy new absent open_ full in
    let apart : (s.next_ref == s.next_ref + 1) ≡ false = ground arith in
    let apart' : (s.next_ref + 1 == s.next_ref) ≡ false = ground arith in
    let busy' = beside-AllBusy cfg c now b s busy new absent open_ full in
    let new' = beside-IsNew cfg c now b s busy new absent open_ full (s.next_ref + 1) apart next in
    let u = beside cfg c now b t busy' new' absent refl full in
    let first = beside_new cfg c now b s busy new absent open_ full in
    let second = beside_new cfg c now b t busy' new' absent refl full in
    let kept = beside_old cfg c now b t busy' new' absent refl full s.next_ref apart' in
    let whole =
      run-append cfg (cold_turn c now b s.next_ref) (cold_turn c now b (s.next_ref + 1)) s
      ∙ ap (run cfg (cold_turn c now b (s.next_ref + 1)))
          (cold_turn_lem cfg c now b s busy new absent open_ full)
      ∙ cold_turn_lem cfg c now b t busy' new' absent refl full in
    subst (λ (v : Pool). Runs c s.next_ref v × Runs c (s.next_ref + 1) v × (v.pool ≡ s.pool))
      (sym whole) ((_, kept ∙ first, refl, refl), (_, second, refl, refl), refl)
