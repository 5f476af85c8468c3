-- ===== src/Guard/Cases.antt =====
-- Case rules: a claim about what `admit` or `check` returns follows from a claim for each branch.
use joshua_ai.Base.{
  String, Bool, true, false, Option, none, some, ◌≡◌, if◌then◌else◌, ltb, Bool-cases, Option-cases,
  inl, inr,
}
use joshua_ai.Roster.{Roster, Person, people_by_handle}
use joshua_ai.Guard.{
  Guard, Inbound, Verdict, unknown_sender, rate_limited, truncated, check, admit, refuse, noted,
  group_for, bump, allow,
}

-- The state after the rate limiter was asked.
abbrev pub charged : Guard → Inbound → Guard
charged s m = record s { rate = (allow s.rate (m.channel_type, m.sender_handle) m.now).1 }

abbrev pub passes : Guard → Inbound → Bool
passes s m = (allow s.rate (m.channel_type, m.sender_handle) m.now).0

abbrev pub turned_away : Guard → Inbound → Verdict × Guard
turned_away s m = refuse (charged s m) m.channel_type m.sender_handle m.chat_id rate_limited m.wall

abbrev pub let_in : Guard → Inbound → Option String → Option String → Verdict × Guard
let_in s m person_id group_id =
    if ltb s.max_text_chars m.text_len
    then (
      record {
        allowed = true;
        person_id = person_id;
        group_id = group_id;
        reason = some truncated;
      },
      record (charged s m) { counts = bump truncated s.counts },
    )
    else (
      record { allowed = true; person_id = person_id; group_id = group_id; reason = none },
      charged s m,
    )

pub admit_cases {ℓ} :
    (P : Verdict × Guard → Type ℓ) (s : Guard) (m : Inbound) (person_id group_id : Option String)
    → (passes s m ≡ false → P (turned_away s m))
    → (passes s m ≡ true → P (let_in s m person_id group_id))
    → P (admit s m person_id group_id)
unfolding admit
admit_cases P s m person_id group_id away inside = elim (Bool-cases (passes s m)) [
  | inl open_ ↦ rw (open_, admit) (inside open_)
  | inr shut ↦ rw (shut, admit) (away shut)
]

pub check_cases {ℓ} :
    (P : Verdict × Guard → Type ℓ) (cfg : Roster) (s : Guard) (m : Inbound)
    → ((p : Person)
        → people_by_handle cfg m.channel_type m.sender_handle ≡ some p
        → P (admit (noted cfg s m) m (some p.id) none))
    → ((g : String)
        → people_by_handle cfg m.channel_type m.sender_handle ≡ none
        → group_for cfg m.channel_type m.chat_id m.chat_kind m.sender_handle ≡ some g
        → P (admit (noted cfg s m) m none (some g)))
    → (people_by_handle cfg m.channel_type m.sender_handle ≡ none
        → group_for cfg m.channel_type m.chat_id m.chat_kind m.sender_handle ≡ none
        → P (refuse (noted cfg s m) m.channel_type m.sender_handle m.chat_id unknown_sender m.wall))
    → P (check cfg s m)
unfolding check
check_cases P cfg s m known in_group stranger =
    elim (Option-cases (people_by_handle cfg m.channel_type m.sender_handle)) [
      | inr (p, e) ↦ rw (e, check) (known p e)
      | inl e ↦
          elim (Option-cases (group_for cfg m.channel_type m.chat_id m.chat_kind m.sender_handle)) [
            | inr (g, f) ↦ rw (e, f, check) (in_group g e f)
            | inl f ↦ rw (e, f, check) (stranger e f)
          ]
    ]
