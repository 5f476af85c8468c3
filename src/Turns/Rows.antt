-- ===== src/Turns/Rows.antt =====
-- The rows that `resolve` of core/joshua_core/turns.py reads and writes: channels and conversations.
use joshua_ai.Base.{
  suc, String, List, [], ◌∷◌, Option, some, none, ◌≡◌, refl, String_eq, Option_eq, arith,
  Option-cases, inl, inr, eq_of_beq, beq_self,
}
use joshua_ai.Base.Dict
use joshua_ai.Turns.{
  TurnEvent, Handle, Store, Conversation, Channel, Person, ensure_channel,
  get_or_create_conversation, select_conversation, new_channel,
}

-- The row is the one the lookup asks for.
abbrev pub RowOf : String → Option String → Conversation → Type 0
RowOf channel_id person_id c = (c.channel_id ≡ channel_id) × (c.person_id ≡ person_id)

select-RowOf :
    (channel_id : String) (person_id : Option String) (cs : List Conversation) (c : Conversation)
    → select_conversation channel_id person_id cs ≡ some c
    → RowOf channel_id person_id c
unfolding select_conversation
select-RowOf channel_id person_id [] c e = cc
select-RowOf channel_id person_id (x ∷ cs) c e = ground (
  arith,
  eq_of_beq x.channel_id channel_id,
  eq_of_beq x.person_id person_id,
  select-RowOf channel_id person_id cs c,
)

abbrev new_row : String → Option String → Store → Conversation
new_row channel_id person_id st = record {
  id = st.next_id;
  channel_id = channel_id;
  person_id = person_id;
}

abbrev with_row : String → Option String → Store → Store
with_row channel_id person_id st = record st {
  conversations = new_row channel_id person_id st ∷ st.conversations;
  next_id = suc st.next_id;
}

-- A claim about the lookup of a conversation follows from one for each branch.
row_cases {ℓ} :
    (P : Conversation × Store → Type ℓ) (channel_id : String) (person_id : Option String)
    (st : Store)
    → ((c : Conversation)
        → select_conversation channel_id person_id st.conversations ≡ some c
        → P (c, st))
    → (select_conversation channel_id person_id st.conversations ≡ none
        → P (new_row channel_id person_id st, with_row channel_id person_id st))
    → P (get_or_create_conversation channel_id person_id st)
unfolding get_or_create_conversation
row_cases P channel_id person_id st old new =
    elim (Option-cases (select_conversation channel_id person_id st.conversations)) [
      | inl missing ↦ rw (missing, get_or_create_conversation) (new missing)
      | inr (c, found) ↦ rw (found, get_or_create_conversation) (old c found)
    ]

pub created-RowOf :
    (channel_id : String) (person_id : Option String) (st : Store)
    → RowOf channel_id person_id (get_or_create_conversation channel_id person_id st).0
created-RowOf channel_id person_id st =
    row_cases (λ r. RowOf channel_id person_id r.0) channel_id person_id st
      (λ c found. select-RowOf channel_id person_id st.conversations c found) (λ _. (refl, refl))

select_new :
    (channel_id : String) (person_id : Option String) (st : Store)
    → select_conversation channel_id person_id (with_row channel_id person_id st).conversations
      ≡ some (new_row channel_id person_id st)
unfolding select_conversation
select_new channel_id person_id st = rw (beq_self channel_id, beq_self person_id) refl

get_or_create_conversation_found :
    (channel_id : String) (person_id : Option String) (st : Store) (c : Conversation)
    → select_conversation channel_id person_id st.conversations ≡ some c
    → get_or_create_conversation channel_id person_id st ≡ (c, st)
unfolding get_or_create_conversation
get_or_create_conversation_found channel_id person_id st c found =
    rw (found, get_or_create_conversation) refl

-- A second lookup gives the same row and writes nothing.
pub get_or_create_conversation_again :
    (channel_id : String) (person_id : Option String) (st : Store)
    → let r = get_or_create_conversation channel_id person_id st in
      get_or_create_conversation channel_id person_id r.1 ≡ r
get_or_create_conversation_again channel_id person_id st =
    row_cases (λ r. get_or_create_conversation channel_id person_id r.1 ≡ r) channel_id person_id st
      (λ c found. get_or_create_conversation_found channel_id person_id st c found)
      (λ _.
        get_or_create_conversation_found channel_id person_id (with_row channel_id person_id st)
          (new_row channel_id person_id st) (select_new channel_id person_id st))

-- Only the conversations and their counter change.
abbrev pub Untouched : Store → Store → Type 0
Untouched st st' = (st'.people ≡ st.people) × (st'.handles ≡ st.handles)

pub row-Untouched :
    (channel_id : String) (person_id : Option String) (st : Store)
    → let r = get_or_create_conversation channel_id person_id st in
      Untouched st r.1 × (r.1.channels ≡ st.channels)
row-Untouched channel_id person_id st =
    row_cases
      (λ r. ((r.1.people ≡ st.people) × (r.1.handles ≡ st.handles)) × (r.1.channels ≡ st.channels))
      channel_id person_id st (λ _ _. ((refl, refl), refl)) (λ _. ((refl, refl), refl))

-- A claim about the channel's row follows from one for each branch.
pub channel_cases {ℓ} :
    (P : Channel × Store → Type ℓ) (event : TurnEvent) (handle : Handle) (person : Option Person)
    (st : Store)
    → ((c : Channel) → Dict.get event.channel st.channels ≡ some c → P (c, st))
    → (Dict.get event.channel st.channels ≡ none
        → P (
          new_channel event handle person,
          record st {
            channels = Dict.put event.channel (new_channel event handle person) st.channels;
          },
        ))
    → P (ensure_channel event handle person st)
unfolding ensure_channel
channel_cases P event handle person st old new =
    elim (Option-cases (Dict.get event.channel st.channels)) [
      | inl missing ↦ rw (missing, ensure_channel) (new missing)
      | inr (c, found) ↦ rw (found, ensure_channel) (old c found)
    ]

pub ensure_channel_stored :
    (event : TurnEvent) (handle : Handle) (person : Option Person) (st : Store)
    → let r = ensure_channel event handle person st in
      (Dict.get event.channel r.1.channels ≡ some r.0) × Untouched st r.1
ensure_channel_stored event handle person st =
    channel_cases (λ r. (Dict.get event.channel r.1.channels ≡ some r.0) × Untouched st r.1) event
      handle person st (λ c found. (found, (refl, refl)))
      (λ _.
        let c = new_channel event handle person in
        (
          ground (
            arith,
            Dict.get-put event.channel event.channel c st.channels,
            beq_self event.channel,
          ),
          (refl, refl),
        ))

pub ensure_channel_found :
    (event : TurnEvent) (handle : Handle) (person : Option Person) (st : Store) (c : Channel)
    → Dict.get event.channel st.channels ≡ some c
    → ensure_channel event handle person st ≡ (c, st)
unfolding ensure_channel
ensure_channel_found event handle person st c found = rw (found, ensure_channel) refl
