-- ===== src/Turns/Cases.antt =====
-- Case rules: a claim about what `accept` returns follows from a claim for each branch.
use joshua_ai.Base.{
  ℕ, true, false, ◌∷◌, some, none, ◌≡◌, Bool-cases, if_cases, Option-cases, inl, inr,
}
use joshua_ai.Turns.{
  Settings, TurnEvent, Service, Store, Answer, Resolution, accepted, duplicate, overloaded,
  unknown_sender, accept, admit, is_repeat, event_answer, resolve, at_capacity,
}

-- The service after the idempotency check.
abbrev pub asked : TurnEvent → ℕ → Service → Service
asked event now s = record s { seen = (is_repeat event.message_id now s.seen).1 }

abbrev pub routed : Store → Service → Service
routed st s = record s { store = st }

abbrev pub started : Resolution → TurnEvent → Service → Service
started r event s = record s { background = (r, event) ∷ s.background }

pub admit_cases {ℓ} :
    (P : Answer × Service → Type ℓ) (cfg : Settings) (event : TurnEvent) (s : Service)
    → (resolve cfg.roster event s.store ≡ none → P (unknown_sender, s))
    → ((r : Resolution) (st : Store)
        → resolve cfg.roster event s.store ≡ some (r, st)
        → at_capacity cfg s ≡ true
        → P (overloaded, routed st s))
    → ((r : Resolution) (st : Store)
        → resolve cfg.roster event s.store ≡ some (r, st)
        → at_capacity cfg s ≡ false
        → P (accepted r.conversation.id, started r event (routed st s)))
    → P (admit cfg event s)
unfolding admit
admit_cases P cfg event s unknown full room =
    elim (Option-cases (resolve cfg.roster event s.store)) [
      | inl no_route ↦ rw (no_route, admit) (unknown no_route)
      | inr ((r, st), route) ↦ elim (Bool-cases (at_capacity cfg s)) [
        | inl at_most ↦ rw (route, at_most, admit) (full r st route at_most)
        | inr below ↦ rw (route, below, admit) (room r st route below)
      ]
    ]

pub accept_cases {ℓ} :
    (P : Answer × Service → Type ℓ) (cfg : Settings) (event : TurnEvent) (now : ℕ) (s : Service)
    → (event.is_event ≡ true → P (event_answer cfg event, s))
    → (event.is_event ≡ false
        → (is_repeat event.message_id now s.seen).0 ≡ true
        → P (duplicate, asked event now s))
    → (event.is_event ≡ false
        → (is_repeat event.message_id now s.seen).0 ≡ false
        → P (admit cfg event (asked event now s)))
    → P (accept cfg event now s)
unfolding accept
accept_cases P cfg event now s as_event again fresh =
    if_cases P event.is_event _ _ as_event
      (λ m. if_cases P (is_repeat event.message_id now s.seen).0 _ _ (again m) (fresh m))
