-- ===== src/Events/Orphan.antt =====
-- The row that an event writes for a direct chat has no person, and keeps none.
use joshua_ai.Base.{
  List, Option, some, none, arith, beq_self, ◌≡◌, refl, ap, ◌∙◌, String_eq, List_eq, ℕ_eq, is_empty,
  false,
}
use joshua_ai.Base.Dict
use joshua_ai.Turns.{
  TurnEvent, Handle, Person, Channel, Store, dm, per_person, get_or_create_conversation,
}
use joshua_ai.Turns
use joshua_ai.Turns.Rows.{ensure_channel_found, row-Untouched}
use joshua_ai.Events.{
  accepted, Event, Env, World, ResolvedChannel, ensure_channel, channel_row, owner_of, spawn, named,
  handle, framing_of,
}
use joshua_ai.Events.Kept.{Arrival, arrive_all, arrive_all-kept}
use joshua_ai.Events.Skills.{Skill, get_skill, append_event_payload}

-- An event with a type whose skill goes to a direct chat that has no row yet.
abbrev pub FirstContact : Env → Event → World → ResolvedChannel → Type 0
FirstContact env event w resolved =
    (skill : Skill) × (is_empty event.event_type ≡ false)
    × (get_skill env.read_text event.event_type ≡ some skill)
    × (env.resolve skill.destination ≡ some resolved)
    × (resolved.chat_kind ≡ dm)
    × (Dict.get resolved.channel_id w.store.channels ≡ none)

new_row :
    (resolved : ResolvedChannel) (st : Store)
    → Dict.get resolved.channel_id st.channels ≡ none
    → ensure_channel resolved st ≡ (
      channel_row resolved,
      record st { channels = Dict.put resolved.channel_id (channel_row resolved) st.channels },
    )
unfolding ensure_channel
new_row resolved st missing = rw (missing, ensure_channel) refl

row_written :
    (resolved : ResolvedChannel) (st : Store)
    → Dict.get resolved.channel_id st.channels ≡ none
    → Dict.get resolved.channel_id (ensure_channel resolved st).1.channels
      ≡ some (channel_row resolved)
row_written resolved st missing =
    let id = resolved.channel_id in
    ap (λ r. Dict.get id r.1.channels) (new_row resolved st missing)
    ∙ ground (arith, Dict.get-put id id (channel_row resolved) st.channels, beq_self id)

accepted_row :
    (env : Env) (event : Event) (w : World) (resolved : ResolvedChannel)
    → FirstContact env event w resolved
    → (handle env event w).1.store.channels ≡ (ensure_channel resolved w.store).1.channels
unfolding handle named spawn
accepted_row env event w resolved (skill, typed, known, there, kind, missing) =
    let c = ensure_channel resolved w.store in
    let prompt = append_event_payload skill.prompt event.payload in
    let answered : handle env event w
        ≡ (accepted, spawn c.0 prompt (framing_of env skill) skill.destination event c.1 w) =
      rw (typed, handle, known, named, there) refl in
    ap (λ r. r.1.store.channels) answered ∙ (row-Untouched c.0.id (owner_of c.0) c.1).1

ensured :
    (resolved : ResolvedChannel) (st : Store) (c : Channel)
    → Dict.get resolved.channel_id st.channels ≡ some c
    → ensure_channel resolved st ≡ (c, st)
unfolding ensure_channel
ensured resolved st c found = rw (found, ensure_channel) refl

-- An event whose skill goes to a direct chat before its person has written leaves a row without a
-- person. Whatever messages and events arrive after it, each message that any person then sends in
-- that chat finds this row and does not change it, and so does each event for that chat, whose
-- conversation is then one of nobody.
pub handle-ensure_channel :
    (env : Env) (event : Event) (w : World) (resolved : ResolvedChannel)
    → FirstContact env event w resolved
    → (after : List Arrival) (turn : TurnEvent) (sender : Handle) (person : Option Person)
    → turn.channel ≡ resolved.channel_id
    → let st : Store = (arrive_all env after (handle env event w).1).store in
      let row = channel_row resolved in
      (row.session_mode ≡ per_person)
      × (row.default_person_id ≡ none)
      × (Turns.ensure_channel turn sender person st ≡ (row, st))
      × (ensure_channel resolved st ≡ (row, st))
      × (owner_of row ≡ none)
handle-ensure_channel env event w resolved first after turn sender person same =
    let st : Store = (arrive_all env after (handle env event w).1).store in
    let row = channel_row resolved in
    let written : Dict.get resolved.channel_id (handle env event w).1.store.channels ≡ some row =
      ap (Dict.get resolved.channel_id) (accepted_row env event w resolved first)
      ∙ row_written resolved w.store first.5 in
    let kept : Dict.get resolved.channel_id st.channels ≡ some row =
      arrive_all-kept env after (handle env event w).1 resolved.channel_id row written in
    (
      rw (first.4) refl,
      refl,
      ensure_channel_found turn sender person st row
          (ap (λ id. Dict.get id st.channels) same ∙ kept),
      ensured resolved st row kept,
      rw (first.4) refl,
    )
