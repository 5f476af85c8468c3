-- ===== src/Turns/Capacity.antt =====
-- The bound of core/joshua_core/turns.py on background turns.
use joshua_ai.Base.{ℕ, zero, suc, ◌*◌, ◌≤◌, List, [], ◌∷◌, arith, drop, length, take, ◌++◌}
use joshua_ai.Turns.{Service, Settings, TurnEvent, admit}
use joshua_ai.Turns.Cases.{accept_cases, admit_cases, asked}
use joshua_ai.Turns.Window.{Step, post, finish, step, run}

length-without {ℓ} :
    {A : Type ℓ} (n : ℕ) (xs : List A) → length (take n xs ++ drop (suc n) xs) ≤ length xs
length-without zero [] = omega arith
length-without (suc n) [] = omega arith
length-without zero (x ∷ xs) = omega arith
length-without (suc n) (x ∷ xs) = let rest = length-without n xs in omega arith

abbrev pub InRoom : Settings → Service → Type 0
InRoom cfg s = length s.background ≤ cfg.pool_max * 2

admit-InRoom :
    (cfg : Settings) (event : TurnEvent) (s : Service)
    → InRoom cfg s
    → InRoom cfg (admit cfg event s).1
admit-InRoom cfg event s h =
    admit_cases (λ r. InRoom cfg r.1) cfg event s (λ _. h) (λ _ _ _ _. h)
      (λ r st _ below. grind arith)

step-InRoom : (cfg : Settings) (x : Step) (s : Service) → InRoom cfg s → InRoom cfg (step cfg x s)
unfolding step
step-InRoom cfg (post event now) s h =
    accept_cases (λ r. InRoom cfg r.1) cfg event now s (λ _. h) (λ _ _. h)
      (λ _ _. admit-InRoom cfg event (asked event now s) h)
step-InRoom cfg (finish place) s h = let fewer = length-without place s.background in omega arith

-- Whatever posts come and whatever turns end, the service never runs more than `pool_max * 2`
-- background turns, if it does not to begin with.
pub run-InRoom :
    (cfg : Settings) (steps : List Step) (s : Service) → InRoom cfg s → InRoom cfg (run cfg steps s)
unfolding run
run-InRoom cfg [] s h = h
run-InRoom cfg (x ∷ xs) s h = run-InRoom cfg xs (step cfg x s) (step-InRoom cfg x s h)
