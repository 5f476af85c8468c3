-- ===== src/Events/Kept.antt =====
-- The rows of channels: a message and an event write one where there is none, and change none.
use joshua_ai.Base.{
  Option, some, none, List, [], ◌∷◌, String, arith, ◌≡◌, ◌∙◌, ap, String_eq, Option-cases, inl, inr,
  eq_of_beq, if_cases, is_empty, List_eq, ℕ_eq,
}
use joshua_ai.Base.Dict
use joshua_ai.Roster.{Roster}
use joshua_ai.Turns.{TurnEvent, Handle, Person, Channel, Store, resolve, routed_to}
use joshua_ai.Turns
use joshua_ai.Turns.Rows.{channel_cases, row-Untouched}
use joshua_ai.Turns.Resolving.{resolve_cases}
use joshua_ai.Events.{
  Answer, Event, Env, World, ResolvedChannel, ensure_channel, channel_row, owner_of, spawn, named,
  handle, channel_addressed, add_transcript, resolve_channel,
}
use joshua_ai.Events.Skills.{get_skill}

-- What core is given: a message of a person, or an event.
pub data Arrival : Type 0 where
  message : Roster → TurnEvent → Arrival
  arrived : Event → Arrival

-- What it leaves; a message that does not resolve leaves all as it was.
abbrev pub arrive : Env → Arrival → World → World
arrive env (message roster turn) w = elim (resolve roster turn w.store) [
  | none ↦ w
  | some r ↦ record w { store = r.1 }
]
arrive env (arrived event) w = (handle env event w).1

abbrev pub arrive_all : Env → List Arrival → World → World
arrive_all env [] w = w
arrive_all env (a ∷ rest) w = arrive_all env rest (arrive env a w)

-- A row of the first store is a row of the second.
abbrev Keeps : Store → Store → Type 0
Keeps st st' =
    (id : String) (c : Channel)
    → Dict.get id st.channels ≡ some c
    → Dict.get id st'.channels ≡ some c

same-Keeps : (st st' : Store) → st'.channels ≡ st.channels → Keeps st st'
same-Keeps st st' same id c row = ap (Dict.get id) same ∙ row

put_missing :
    (st : Store) (k : String) (v : Channel)
    → Dict.get k st.channels ≡ none
    → Keeps st (record st { channels = Dict.put k v st.channels })
put_missing st k v missing id c row =
    ground (arith, Dict.get-put k id v st.channels, eq_of_beq k id, eq_of_beq id k)

row-Keeps :
    (id : String) (person_id : Option String) (st st' : Store)
    → Keeps st st'
    → Keeps st (Turns.get_or_create_conversation id person_id st').1
row-Keeps id person_id st st' kept j c row =
    same-Keeps st' (Turns.get_or_create_conversation id person_id st').1
      (row-Untouched id person_id st').1 j c (kept j c row)

message-Keeps :
    (event : TurnEvent) (sender : Handle) (person : Option Person) (st : Store)
    → Keeps st (routed_to event sender person st).1
unfolding routed_to
message-Keeps event sender person st =
    let c = Turns.ensure_channel event sender person st in
    row-Keeps c.0.id (Turns.owner_of event person) st c.1 (
      channel_cases (λ r. Keeps st r.1) event sender person st (λ _ _ _ _ row. row)
        (λ missing. put_missing st event.channel _ missing))

ensure_channel-Keeps :
    (resolved : ResolvedChannel) (st : Store) → Keeps st (ensure_channel resolved st).1
unfolding ensure_channel
ensure_channel-Keeps resolved st = elim (Option-cases (Dict.get resolved.channel_id st.channels)) [
  | inl missing ↦
      rw (missing, ensure_channel)
        (put_missing st resolved.channel_id (channel_row resolved) missing)
  | inr (c, found) ↦ rw (found, ensure_channel) (λ _ _ row. row)
]

named-Keeps : (env : Env) (event : Event) (w : World) → Keeps w.store (named env event w).1.store
unfolding named spawn
named-Keeps env event w = elim (Option-cases (get_skill env.read_text event.event_type)) [
  | inl unknown ↦ rw (unknown, named) (λ _ _ row. row)
  | inr (skill, known) ↦ elim (Option-cases (env.resolve skill.destination)) [
    | inl gone ↦ rw (known, gone, named) (λ _ _ row. row)
    | inr (resolved, there) ↦
        let c = ensure_channel resolved w.store in
        rw (known, there, named)
          (row-Keeps c.0.id (owner_of c.0) w.store c.1 (ensure_channel-Keeps resolved w.store))
  ]
]

channel_addressed-Keeps :
    (env : Env) (event : Event) (w : World) → Keeps w.store (channel_addressed env event w).1.store
unfolding channel_addressed spawn add_transcript
channel_addressed-Keeps env event w =
    elim (Option-cases (resolve_channel env event.turn.channel w.store)) [
      | inl unknown ↦ rw (unknown, channel_addressed) (λ _ _ row. row)
      | inr (c, known) ↦
          let kept = row-Keeps c.id (owner_of c) w.store w.store (λ _ _ row. row) in
          rw (known, channel_addressed)
            (if_cases {A = Answer × World} (λ r. Keeps w.store r.1.store) event.verbatim _ _
              (λ _. kept) (λ _. kept))
    ]

handle-Keeps : (env : Env) (event : Event) (w : World) → Keeps w.store (handle env event w).1.store
unfolding handle
handle-Keeps env event w =
    if_cases {A = Answer × World} (λ r. Keeps w.store r.1.store) (is_empty event.event_type)
      (channel_addressed env event w) (named env event w) (λ _. channel_addressed-Keeps env event w)
      (λ _. named-Keeps env event w)

arrive-Keeps : (env : Env) (a : Arrival) (w : World) → Keeps w.store (arrive env a w).store
arrive-Keeps env (arrived event) w = handle-Keeps env event w
arrive-Keeps env (message roster turn) w =
    resolve_cases
      (λ o.
        Keeps w.store
          (elim o as (λ _. World) [ none ↦ w | some r ↦ record w { store = r.1 } ]).store)
      roster turn w.store (λ _ _ row. row)
      (λ sender person _ _. message-Keeps turn sender person w.store)

-- Whatever arrives, a row that a channel has stays as it is.
pub arrive_all-kept :
    (env : Env) (rest : List Arrival) (w : World) (id : String) (c : Channel)
    → Dict.get id w.store.channels ≡ some c
    → Dict.get id (arrive_all env rest w).store.channels ≡ some c
arrive_all-kept env [] w id c row = row
arrive_all-kept env (a ∷ rest) w id c row =
    arrive_all-kept env rest (arrive env a w) id c (arrive-Keeps env a w id c row)
