-- ===== src/Guard/Records.antt =====
-- What the guard keeps for the operator: the counters, the ring of recent refusals and the table of
-- group chats that the roster does not list.
use mathlib.Core.List.{append_assoc, append-nil}
use joshua_ai.Base.{
  ℕ, ◌+◌, String, true, false, Option, none, some, List, [], ◌∷◌, ◌++◌, ◌≡◌, refl, arith, String_eq,
  Pair_eq, Bool-cases, inl, inr, ltb,
}
use joshua_ai.Base.Dict
use joshua_ai.Base.Dict.{Dict}
use joshua_ai.Roster.{Roster}
use joshua_ai.Guard.{
  Guard, Inbound, Verdict, Refusal, Reason, unknown_sender, rate_limited, truncated, check, admit,
  refuse, noted, note_unconfigured, bump, init, dm, recent_ring_size,
}
use joshua_ai.Guard.Cases.{charged, let_in, admit_cases, check_cases}
use joshua_ai.Guard.Ring.{append_bounded-last, last}

-- How often a reason stands in a log of refusals.
abbrev pub tally : Reason → List Refusal → ℕ
tally why [] = 0
tally unknown_sender (r ∷ rs) =
    (elim r.reason [ unknown_sender ↦ 1 | _ ↦ 0 ]) + tally unknown_sender rs
tally rate_limited (r ∷ rs) = (elim r.reason [ rate_limited ↦ 1 | _ ↦ 0 ]) + tally rate_limited rs
tally truncated (r ∷ rs) = (elim r.reason [ truncated ↦ 1 | _ ↦ 0 ]) + tally truncated rs

-- The entry that a verdict calls for: none for an allowed message.
abbrev pub entry : Inbound → Verdict → List Refusal
entry m v = elim v.allowed [
  | true ↦ []
  | false ↦ elim v.reason [
    | none ↦ []
    | some why ↦
        record {
          channel_type = m.channel_type;
          address = m.sender_handle;
          chat_id = m.chat_id;
          reason = why;
          at = m.wall;
        }
        ∷ []
  ]
]

-- What reaches the guard: a message that it checks against the roster of the moment, or a refusal by
-- a channel that judged the sender itself.
pub data Traffic : Type 0 where
  checked : Roster → Inbound → Traffic
  turned_away : String → String → String → Reason → ℕ → Traffic

abbrev pub serve : Guard → Traffic → Verdict × Guard
serve s (checked cfg m) = check cfg s m
serve s (turned_away channel_type address chat_id why wall) =
    refuse s channel_type address chat_id why wall

abbrev pub serve_all : Guard → List Traffic → Guard
serve_all s [] = s
serve_all s (e ∷ rest) = serve_all (serve s e).1 rest

-- The entry that a piece of traffic calls for, given its verdict; a channel's own refusal always does.
abbrev pub entry_of : Traffic → Verdict → List Refusal
entry_of (checked cfg m) v = entry m v
entry_of (turned_away channel_type address chat_id why wall) v =
    record {
      channel_type = channel_type;
      address = address;
      chat_id = chat_id;
      reason = why;
      at = wall;
    }
    ∷ []

-- Every refusal of some traffic, oldest first, read off the traffic and its verdicts.
abbrev pub refusals : Guard → List Traffic → List Refusal
refusals s [] = []
refusals s (e ∷ rest) = entry_of e (serve s e).0 ++ refusals (serve s e).1 rest

-- The guard's records agree with a log of refusals.
pub record Tracks (log : List Refusal) (s : Guard) : Type 0 where
  pub ring : s.recent ≡ last recent_ring_size log
  pub unknown : s.counts.unknown ≡ tally unknown_sender log
  pub limited : s.counts.limited ≡ tally rate_limited log

tally-append :
    (why : Reason) (xs ys : List Refusal) → tally why (xs ++ ys) ≡ tally why xs + tally why ys
tally-append unknown_sender [] ys = omega arith
tally-append unknown_sender (x ∷ xs) ys = omega (arith, tally-append unknown_sender xs ys)
tally-append rate_limited [] ys = omega arith
tally-append rate_limited (x ∷ xs) ys = omega (arith, tally-append rate_limited xs ys)
tally-append truncated [] ys = omega arith
tally-append truncated (x ∷ xs) ys = omega (arith, tally-append truncated xs ys)

-- A step whose verdict is `v` and whose next state is `s'` keeps the records in step with the log.
abbrev Follows : Guard → Inbound → Verdict × Guard → Type 0
Follows s m r = (log : List Refusal) → Tracks log s → Tracks (log ++ entry m r.0) r.1

refuse-Follows :
    (s : Guard) (m : Inbound) (why : Reason)
    → Follows s m (refuse s m.channel_type m.sender_handle m.chat_id why m.wall)
unfolding refuse bump
refuse-Follows s m unknown_sender log t = record {
  ring = rw t.ring (append_bounded-last 199 log _);
  unknown = omega (arith, tally-append unknown_sender log);
  limited = omega (arith, tally-append rate_limited log);
}
refuse-Follows s m rate_limited log t = record {
  ring = rw t.ring (append_bounded-last 199 log _);
  unknown = omega (arith, tally-append unknown_sender log);
  limited = omega (arith, tally-append rate_limited log);
}
refuse-Follows s m truncated log t = record {
  ring = rw t.ring (append_bounded-last 199 log _);
  unknown = omega (arith, tally-append unknown_sender log);
  limited = omega (arith, tally-append rate_limited log);
}

note_unconfigured-Tracks :
    (s : Guard) (m : Inbound) (log : List Refusal)
    → Tracks log s
    → Tracks log (note_unconfigured s m)
unfolding note_unconfigured
note_unconfigured-Tracks s m log t =
    elim (Bool-cases (Dict.has (m.channel_type, m.chat_id) s.unconfigured)) [
      | inl old ↦ rw (old, note_unconfigured) t
      | inr new ↦
          rw (new, note_unconfigured)
            (record { ring = t.ring; unknown = t.unknown; limited = t.limited })
    ]

noted-Tracks :
    (cfg : Roster) (s : Guard) (m : Inbound) (log : List Refusal)
    → Tracks log s
    → Tracks log (noted cfg s m)
unfolding noted
noted-Tracks cfg s m log t = ground (arith, note_unconfigured-Tracks s m log t)

let_in-Follows :
    (s : Guard) (m : Inbound) (person_id group_id : Option String)
    → Follows s m (let_in s m person_id group_id)
unfolding bump
let_in-Follows s m person_id group_id log t = elim (Bool-cases (ltb s.max_text_chars m.text_len)) [
  | inl long ↦
      rw (long, append-nil) (record { ring = t.ring; unknown = t.unknown; limited = t.limited })
  | inr short ↦
      rw (short, append-nil) (record { ring = t.ring; unknown = t.unknown; limited = t.limited })
]

admit-Follows :
    (s : Guard) (m : Inbound) (person_id group_id : Option String)
    → Follows s m (admit s m person_id group_id)
admit-Follows s m person_id group_id log t =
    admit_cases (λ r. Tracks (log ++ entry m r.0) r.1) s m person_id group_id
      (λ _.
        refuse-Follows (charged s m) m rate_limited log
          (record { ring = t.ring; unknown = t.unknown; limited = t.limited }))
      (λ _. let_in-Follows s m person_id group_id log t)

check-Follows : (cfg : Roster) (s : Guard) (m : Inbound) → Follows s m (check cfg s m)
check-Follows cfg s m log t =
    let t' = noted-Tracks cfg s m log t in
    check_cases (λ r. Tracks (log ++ entry m r.0) r.1) cfg s m
      (λ p _. admit-Follows (noted cfg s m) m (some p.id) none log t')
      (λ g _ _. admit-Follows (noted cfg s m) m none (some g) log t')
      (λ _ _. refuse-Follows (noted cfg s m) m unknown_sender log t')

serve-Tracks :
    (s : Guard) (e : Traffic) (log : List Refusal)
    → Tracks log s
    → Tracks (log ++ entry_of e (serve s e).0) (serve s e).1
unfolding refuse
serve-Tracks s (checked cfg m) log t = check-Follows cfg s m log t
serve-Tracks s (turned_away channel_type address chat_id why wall) log t =
    refuse-Follows s (sender channel_type address chat_id wall) why log t
  where
    sender : String → String → String → ℕ → Inbound
    sender channel_type address chat_id wall = record {
      channel_type = channel_type;
      sender_handle = address;
      chat_id = chat_id;
      chat_kind = dm;
      chat_title = none;
      text_len = 0;
      now = 0;
      wall = wall;
    }

serve_all-Tracks :
    (s : Guard) (es : List Traffic) (log : List Refusal)
    → Tracks log s
    → Tracks (log ++ refusals s es) (serve_all s es)
serve_all-Tracks s [] log t = rw append-nil t
serve_all-Tracks s (e ∷ rest) log t =
    rw (← append_assoc) (
      serve_all-Tracks (serve s e).1 rest (log ++ entry_of e (serve s e).0)
        (serve-Tracks s e log t))

-- After any traffic, a channel's own refusals included, the ring holds the last 200 refusals in
-- order, and each refusal counter is the number of refusals with its reason.
pub recent-run :
    (max_text_chars per_minute : ℕ) (es : List Traffic)
    → let s = init max_text_chars per_minute in Tracks (refusals s es) (serve_all s es)
recent-run max_text_chars per_minute es =
    serve_all-Tracks (init max_text_chars per_minute) es []
      (unfold init in record { ring = refl; unknown = refl; limited = refl })
