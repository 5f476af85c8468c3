-- ===== src/Pool/Running.antt =====
-- What may touch the object of a running turn.
use joshua_ai.Base.{
  ℕ, ◌-◌, ◌<◌, Bool, true, false, not, ◌&&◌, ◌||◌, some, none, List, [], ◌∷◌, ◌==◌, All, ℕ_eq,
  String_eq, length, elem, keep_if, ◌≡◌, ◌≢◌, refl, arith, if_cases, Bool-cases, Option-cases, inl,
  inr, eq_of_beq, ap, sym, subst, ◌∙◌, nat_eq_iff,
}
use joshua_ai.Base.Dict
use joshua_ai.Base.Dict.{Dict, values}
use joshua_ai.Pool.Defs.{
  Conversation, Managed, Pool, Section, free, rebuilding, closing, Settings, Build, modify, closed,
  connect_and_lock, is_locked, is_stale_ref, rebuilt, drop_session, last_used_of, insert_by,
  sort_by, idle, victims, over_limit, added, built, get_or_create, is_idle_ref, reap_idle, proceed,
  is_free,
}
use joshua_ai.Pool.Steps.{
  Event, start_turn, take_lock, end_turn, go_on, reap, flush, close_flushed, step, run,
}

pub get-modify :
    (ref other : ℕ) (f : Managed → Managed) (d : Dict ℕ Managed)
    → (ref == other) ≡ false
    → Dict.get other (modify ref f d) ≡ Dict.get other d
unfolding modify Dict.get
get-modify ref other f [] h = refl
get-modify ref other f ((r, m) ∷ d) h =
    ground
      (arith, nat_eq_iff r ref, nat_eq_iff r other, nat_eq_iff ref other, get-modify ref other f d)

-- Sorting and cutting a list bring in no new entry.
elem-insert_by :
    (key : ℕ → ℕ) (x y : ℕ) (ys : List ℕ) → elem x (insert_by key y ys) ≡ (y == x || elem x ys)
unfolding insert_by
elem-insert_by key x y [] = refl
elem-insert_by key x y (z ∷ ys) = ground (arith, elem-insert_by key x y ys)

elem-sort_by : (key : ℕ → ℕ) (x : ℕ) (ys : List ℕ) → elem x (sort_by key ys) ≡ elem x ys
unfolding sort_by
elem-sort_by key x [] = refl
elem-sort_by key x (y ∷ ys) =
    elem-insert_by key x y (sort_by key ys) ∙ ap (λ b. y == x || b) (elem-sort_by key x ys)

elem-victims :
    (limit n x : ℕ) (refs : List ℕ) → elem x refs ≡ false → elem x (victims limit n refs) ≡ false
unfolding victims
elem-victims limit n x [] h = refl
elem-victims limit n x (r ∷ refs) h = ground (arith, elem-victims limit (n - 1) x refs)

elem-keep_if : (p : ℕ → Bool) (x : ℕ) (ys : List ℕ) → p x ≡ false → elem x (keep_if p ys) ≡ false
elem-keep_if p x [] h = refl
elem-keep_if p x (y ∷ ys) h =
    if_cases (λ zs. elem x zs ≡ false) (p y) (y ∷ keep_if p ys) (keep_if p ys)
      (λ kept.
        let other : (y == x) ≡ false = elim (Bool-cases (y == x)) [
          | inl same ↦ let equal : y ≡ x = eq_of_beq y x same in absurd (cc)
          | inr different ↦ different
        ] in
        rw (other) (elem-keep_if p x ys h))
      (λ _. elem-keep_if p x ys h)

-- The section of the pool's lock will not touch the object.
abbrev pub Unpicked : ℕ → Section → Type 0
Unpicked ref free = Unit
Unpicked ref (rebuilding r b) = (r == ref) ≡ false
Unpicked ref (closing refs next) = elem ref refs ≡ false

-- The object, as it is, belongs to a turn that runs.
abbrev pub IsRunning : ℕ → Managed → Pool → Type 0
IsRunning ref m s =
    (Dict.get ref s.objects ≡ some m)
    × (m.locked ≡ true)
    × (ref < s.next_ref)
    × Unpicked ref s.section

-- The event is not the end of this turn.
abbrev pub Elsewhere : ℕ → Event → Type 0
Elsewhere ref (end_turn r now asked b failed first second) = (r == ref) ≡ false
Elsewhere ref _ = Unit

same-of-not : (a b : ℕ) → a ≢ b → (a == b) ≡ false
same-of-not a b h = elim (Bool-cases (a == b)) [
  | inl same ↦ absurd (h (eq_of_beq a b same))
  | inr different ↦ different
]

-- A locked object is not chosen by the pool's limit, nor by the reaper, nor for a rebuild.
is_locked-get :
    (ref : ℕ) (m : Managed) (s : Pool)
    → Dict.get ref s.objects ≡ some m
    → m.locked ≡ true
    → is_locked s ref ≡ true
unfolding is_locked
is_locked-get ref m s here held = rw (here, is_locked) held

over_limit-locked :
    (limit ref : ℕ) (s : Pool) → is_locked s ref ≡ true → elem ref (over_limit limit s) ≡ false
unfolding idle
over_limit-locked limit ref s held = elem-victims limit (length s.pool) ref (idle s) (
    elem-sort_by (last_used_of s) ref (keep_if (λ r. not (is_locked s r)) (values s.pool))
    ∙ elem-keep_if (λ r. not (is_locked s r)) ref (values s.pool) (rw held refl))

is_stale_ref-locked :
    (b : Build) (ref : ℕ) (s : Pool) → is_locked s ref ≡ true → is_stale_ref b s ref ≡ false
unfolding is_locked is_stale_ref
is_stale_ref-locked b ref s held = elim (Option-cases (Dict.get ref s.objects)) [
  | inl missing ↦ rw (missing, is_stale_ref) refl
  | inr (m, here) ↦
      let shut : m.locked ≡ true = ground arith in rw (here, is_stale_ref) (ground arith)
]

is_idle_ref-locked :
    (cfg : Settings) (now ref : ℕ) (s : Pool)
    → is_locked s ref ≡ true
    → is_idle_ref cfg now s ref ≡ false
unfolding is_locked is_idle_ref
is_idle_ref-locked cfg now ref s held = elim (Option-cases (Dict.get ref s.objects)) [
  | inl missing ↦ rw (missing, is_idle_ref) refl
  | inr (m, here) ↦
      let shut : m.locked ≡ true = ground arith in rw (here, is_idle_ref) (ground arith)
]

module _ (cfg : Settings) (ref : ℕ) (m : Managed) (s : Pool) (running : IsRunning ref m s) where
  locked : is_locked s ref ≡ true
  locked = is_locked-get ref m s running.0 running.1

  grown-get :
      (c : Conversation) (now : ℕ) (b : Build) → Dict.get ref (added c now b s).objects ≡ some m
  grown-get c now b =
      Dict.get-put s.next_ref ref (built s.next_session c now b) s.objects
      ∙ rw (same-of-not s.next_ref ref (λ e. let old = running.2 in absurd (omega (arith, e))))
          running.0

  create-IsRunning :
      (c : Conversation) (now : ℕ) (b : Build)
      → is_free s.section ≡ true
      → IsRunning ref m (get_or_create cfg c now b s)
  unfolding get_or_create
  create-IsRunning c now b h = elim (Option-cases (Dict.get c.id s.pool)) [
    | inl missing ↦
        rw (missing, get_or_create)
          (
            grown-get c now b,
            running.1,
            (let old = running.2 in omega arith),
            over_limit-locked cfg.pool_max ref (added c now b s)
                (is_locked-get ref m (added c now b s) (grown-get c now b) running.1),
          )
    | inr (r, found) ↦
        rw (found, get_or_create)
          (if_cases (IsRunning ref m) (is_stale_ref b s r) (record s { section = rebuilding r b })
            (record s { waiting = r ∷ s.waiting })
            (λ stale. (
              running.0,
              running.1,
              running.2,
              same-of-not r ref
                  (λ e. let fresh = is_stale_ref-locked b ref s locked in absurd (cc)),
            ))
            (λ _. running))
  ]

  proceed-IsRunning : (sec : Section) → s.section ≡ sec → IsRunning ref m (proceed sec s)
  unfolding proceed drop_session
  proceed-IsRunning free h = running
  proceed-IsRunning (rebuilding r b) h =
      let other : (r == ref) ≡ false = subst (Unpicked ref) h running.3 in
      (
        get-modify r ref (rebuilt s.next_session b) s.objects other ∙ running.0,
        running.1,
        running.2,
        tt,
      )
  proceed-IsRunning (closing (r ∷ refs) next) h =
      let apart : elem ref (r ∷ refs) ≡ false = subst (Unpicked ref) h running.3 in
      let others : elem ref refs ≡ false = ground arith in
      let other : (r == ref) ≡ false = ground arith in
      elim (Option-cases (Dict.get r s.objects)) [
        | inl missing ↦ rw (missing, drop_session) (running.0, running.1, running.2, others)
        | inr (o, found) ↦
            rw (found, drop_session)
              (get-modify r ref closed s.objects other ∙ running.0, running.1, running.2, others)
      ]
  proceed-IsRunning (closing [] none) h = (running.0, running.1, running.2, tt)
  proceed-IsRunning (closing [] (some r)) h = (running.0, running.1, running.2, tt)

  reaped : (now : ℕ) → IsRunning ref m (reap_idle cfg now s)
  unfolding reap_idle
  reaped now = (
    running.0,
    running.1,
    running.2,
    elem-keep_if (is_idle_ref cfg now s) ref (values s.pool)
        (is_idle_ref-locked cfg now ref s locked),
  )

  pub step-IsRunning : (e : Event) → Elsewhere ref e → IsRunning ref m (step cfg e s)
  unfolding step
  step-IsRunning (start_turn c now b) h =
      if_cases (IsRunning ref m) (is_free s.section) (get_or_create cfg c now b s) s
        (λ room. create-IsRunning c now b room) (λ _. running)
  step-IsRunning (take_lock r now) h =
      if_cases (IsRunning ref m) (elem r s.waiting && not (is_locked s r)) _ s
        (λ ready.
          let other = same-of-not r ref (λ e. let held = locked in absurd (ground arith)) in
          (
            get-modify r ref (connect_and_lock now) s.objects other ∙ running.0,
            running.1,
            running.2,
            running.3,
          ))
        (λ _. running)
  step-IsRunning (end_turn r now asked b failed first second) h =
      if_cases (IsRunning ref m) (is_locked s r) _ s
        (λ _. (get-modify r ref _ s.objects h ∙ running.0, running.1, running.2, running.3))
        (λ _. running)
  step-IsRunning go_on h = proceed-IsRunning s.section refl
  step-IsRunning (reap now) h =
      if_cases (IsRunning ref m) (is_free s.section) (reap_idle cfg now s) s (λ _. reaped now)
        (λ _. running)
  step-IsRunning flush h =
      if_cases (IsRunning ref m) (is_free s.section) _ s (λ _. running) (λ _. running)
  step-IsRunning (close_flushed r) h =
      if_cases (IsRunning ref m) (elem r s.flushed && not (is_locked s r)) _ s
        (λ ready.
          let other = same-of-not r ref (λ e. let held = locked in absurd (ground arith)) in
          (get-modify r ref closed s.objects other ∙ running.0, running.1, running.2, running.3))
        (λ _. running)

abbrev pub AllElsewhere : ℕ → List Event → Type 0
AllElsewhere ref es = All (Elsewhere ref) es

run-IsRunning :
    (cfg : Settings) (ref : ℕ) (m : Managed) (es : List Event) (s : Pool)
    → AllElsewhere ref es
    → IsRunning ref m s
    → IsRunning ref m (run cfg es s)
unfolding run
run-IsRunning cfg ref m [] s h running = running
run-IsRunning cfg ref m (e ∷ es) s h running =
    run-IsRunning cfg ref m es (step cfg e s) h.1 (step-IsRunning cfg ref m s running e h.0)

-- While a turn runs, its session is its own: from a moment at which nobody holds the pool's lock,
-- whatever turns start, run and end, whatever the reaper, the pool's limit, a rebuild or a flush
-- do, the object of the turn stays as it is until the turn ends.
pub run_untouched :
    (cfg : Settings) (ref : ℕ) (m : Managed) (es : List Event) (s : Pool)
    → Dict.get ref s.objects ≡ some m
    → m.locked ≡ true
    → ref < s.next_ref
    → s.section ≡ free
    → AllElsewhere ref es
    → Dict.get ref (run cfg es s).objects ≡ some m
run_untouched cfg ref m es s here held old open_ apart =
    (run-IsRunning cfg ref m es s apart (here, held, old, subst (Unpicked ref) (sym open_) tt)).0
