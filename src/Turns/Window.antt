-- ===== src/Turns/Window.antt =====
-- `POST /v1/turns` over a run of calls: the idempotency window, and the retry of channels.
use joshua_ai.Base.{
  ℕ, suc, ◌+◌, ◌≤◌, String, true, false, List, [], ◌∷◌, Option, some, none, ◌≡◌, ◌≢◌, refl, sym, ap,
  ◌∙◌, ◌==◌, String_eq, arith, drop, take, ◌++◌, if_cases, subst,
}
use joshua_ai.Turns.{
  Service, Settings, TurnEvent, duplicate, overloaded, accept, admit, is_repeat, Seen, seen_ttl,
  status_of, submit_turn,
}
use joshua_ai.Turns.Idempotency.{
  Fresh, check_and_add, check_and_add_adds, check_and_add-Fresh, Fresh-check_and_add,
}
use joshua_ai.Turns.Cases.{accept_cases, admit_cases, asked}

-- What happens to the service: a post at a time, or the end of a background turn.
pub data Step : Type 0 where
  post : TurnEvent → ℕ → Step
  finish : ℕ → Step

-- `self._background.discard`, by the place of the turn.
unfoldable pub step : Settings → Step → Service → Service
step cfg (post event now) s = (accept cfg event now s).1
step cfg (finish place) s = record s {
  background = take place s.background ++ drop (suc place) s.background;
}

unfoldable pub run : Settings → List Step → Service → Service
run cfg [] s = s
run cfg (x ∷ xs) s = run cfg xs (step cfg x s)

-- Every post of the run falls in the window that starts at `t`.
abbrev pub Within : ℕ → List Step → Type 0
Within t [] = Unit
Within t (post event now ∷ xs) = (t ≤ now) × (now ≤ t + seen_ttl) × Within t xs
Within t (finish place ∷ xs) = Within t xs

-- A post whose id is checked.
abbrev pub Carries : String → TurnEvent → Type 0
Carries id event = (event.is_event ≡ false) × (event.message_id ≡ some id) × ((id == "") ≡ false)

seen-admit :
    (cfg : Settings) (event : TurnEvent) (s : Service) → (admit cfg event s).1.seen ≡ s.seen
seen-admit cfg event s =
    admit_cases (λ r. r.1.seen ≡ s.seen) cfg event s (λ _. refl) (λ _ _ _ _. refl) (λ _ _ _ _. refl)

is_repeat-Fresh :
    (asked_id : Option String) (id : String) (t now : ℕ) (seen : Seen)
    → t ≤ now
    → now ≤ t + seen_ttl
    → Fresh id t seen
    → Fresh id t (is_repeat asked_id now seen).1
unfolding is_repeat
is_repeat-Fresh none id t now seen h le fresh = fresh
is_repeat-Fresh (some other) id t now seen h le fresh =
    if_cases (λ r. Fresh id t r.1) (other == "") (false, seen) (check_and_add other now seen)
      (λ _. fresh) (λ _. check_and_add-Fresh id other t now seen h le fresh)

-- What the check does with a post that carries an id.
is_repeat_carried :
    (event : TurnEvent) (id : String) (now : ℕ) (seen : Seen)
    → Carries id event
    → is_repeat event.message_id now seen ≡ check_and_add id now seen
unfolding is_repeat
is_repeat_carried event id now seen (message, e, full) = rw (e, is_repeat, full) refl

accept-Fresh :
    (cfg : Settings) (event : TurnEvent) (id : String) (t now : ℕ) (s : Service)
    → t ≤ now
    → now ≤ t + seen_ttl
    → Fresh id t s.seen
    → Fresh id t (accept cfg event now s).1.seen
accept-Fresh cfg event id t now s h le fresh =
    let kept = is_repeat-Fresh event.message_id id t now s.seen h le fresh in
    accept_cases (λ r. Fresh id t r.1.seen) cfg event now s (λ _. fresh) (λ _ _. kept)
      (λ _ _. subst (Fresh id t) (sym (seen-admit cfg event (asked event now s))) kept)

run-Fresh :
    (cfg : Settings) (id : String) (t : ℕ) (steps : List Step) (s : Service)
    → Within t steps
    → Fresh id t s.seen
    → Fresh id t (run cfg steps s).seen
unfolding run step
run-Fresh cfg id t [] s within fresh = fresh
run-Fresh cfg id t (post event now ∷ xs) s (h, le, rest) fresh =
    run-Fresh cfg id t xs (accept cfg event now s).1 rest
      (accept-Fresh cfg event id t now s h le fresh)
run-Fresh cfg id t (finish place ∷ xs) s within fresh = run-Fresh cfg id t xs _ within fresh

-- After a post with an id, unless it is told a duplicate, its id is fresh.
accept_marks :
    (cfg : Settings) (event : TurnEvent) (id : String) (now : ℕ) (s : Service)
    → Carries id event
    → (accept cfg event now s).0 ≢ duplicate
    → Fresh id now (accept cfg event now s).1.seen
accept_marks cfg event id now s carries =
    let asks = is_repeat_carried event id now s.seen carries in
    accept_cases (λ r. r.0 ≢ duplicate → Fresh id now r.1.seen) cfg event now s
      (λ as_event _. let message = carries.0 in absurd (cc)) (λ _ _ other. absurd (other refl))
      (λ _ first _. subst (Fresh id now) (sym (seen-admit cfg event (asked event now s))) (
        subst (λ r. Fresh id now r.1) (sym asks)
          (check_and_add_adds id now s.seen (sym (ap (λ r. r.0) asks) ∙ first))))

is_repeat_again :
    (event : TurnEvent) (id : String) (t now : ℕ) (seen : Seen)
    → Carries id event
    → now ≤ t + seen_ttl
    → Fresh id t seen
    → (is_repeat event.message_id now seen).0 ≡ true
is_repeat_again event id t now seen carries le fresh =
    ap (λ r. r.0) (is_repeat_carried event id now seen carries)
    ∙ Fresh-check_and_add id t now seen le fresh

accept-duplicate :
    (cfg : Settings) (event : TurnEvent) (now : ℕ) (s : Service)
    → event.is_event ≡ false
    → (is_repeat event.message_id now s.seen).0 ≡ true
    → (accept cfg event now s).0 ≡ duplicate
unfolding accept
accept-duplicate cfg event now s m again = ground arith

pub accept_once :
    (cfg : Settings) (first second : TurnEvent) (id : String) (t1 t2 : ℕ) (steps : List Step)
    (s : Service)
    → Carries id first
    → Carries id second
    → (accept cfg first t1 s).0 ≢ duplicate
    → Within t1 steps
    → t2 ≤ t1 + seen_ttl
    → (accept cfg second t2 (run cfg steps (accept cfg first t1 s).1)).0 ≡ duplicate
accept_once cfg first second id t1 t2 steps s one two answered within le =
    let fresh =
      run-Fresh cfg id t1 steps (accept cfg first t1 s).1 within
        (accept_marks cfg first id t1 s one answered) in
    let later = run cfg steps (accept cfg first t1 s).1 in
    accept-duplicate cfg second t2 later two.0
      (is_repeat_again second id t1 t2 later.seen two le fresh)

-- A post with a message id that was refused with 429 for lack of room stays refused: the retry
-- that channels make, within 900 s and whatever happens in between, is told a duplicate, so
-- `submit_turn` reports the turn as not accepted, with status 200.
pub submit_turn_overloaded :
    (cfg : Settings) (event : TurnEvent) (id : String) (t1 t2 : ℕ) (steps : List Step) (s : Service)
    → Carries id event
    → (accept cfg event t1 s).0 ≡ overloaded
    → Within t1 steps
    → t2 ≤ t1 + seen_ttl
    → submit_turn
        (status_of (accept cfg event t1 s).0)
        (status_of (accept cfg event t2 (run cfg steps (accept cfg event t1 s).1)).0)
      ≡ record { accepted = false; status = 200 }
unfolding submit_turn
submit_turn_overloaded cfg event id t1 t2 steps s carries full within le =
    rw (full, accept_once cfg event event id t1 t2 steps s carries carries (λ e. cc) within le) refl
