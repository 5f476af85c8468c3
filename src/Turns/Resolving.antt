-- ===== src/Turns/Resolving.antt =====
-- `resolve` of core/joshua_core/turns.py: who a turn runs for, and in which conversation.
use joshua_ai.Base.{
  sym, Pair_eq, Option, some, none, ◌≡◌, refl, ap, ◌∙◌, String_eq, Option_eq, Option-cases, inl,
  inr, subst,
}
use joshua_ai.Base.Dict
use joshua_ai.Roster.{Roster}
use joshua_ai.Turns.{
  TurnEvent, Handle, Store, Resolution, Conversation, Channel, Person, resolve, routed_to,
  sender_of, ensure_channel, get_or_create_conversation, get_person, get_person_by_handle, owner_of,
  resolution_of, runs_for, resolve_handle,
}
use joshua_ai.Turns.Senders.{RunsFor, OwnedBy, runs_for-RunsFor, owner_of-OwnedBy}
use joshua_ai.Turns.Rows.{
  created-RowOf, get_or_create_conversation_again, Untouched, row-Untouched, ensure_channel_stored,
  ensure_channel_found,
}

routed_of :
    (event : TurnEvent) (handle : Handle) (person : Option Person) (st st1 st2 : Store)
    (c : Channel) (v : Conversation)
    → ensure_channel event handle person st ≡ (c, st1)
    → get_or_create_conversation c.id (owner_of event person) st1 ≡ (v, st2)
    → routed_to event handle person st ≡ (resolution_of event handle person c v, st2)
unfolding routed_to
routed_of event handle person st st1 st2 c v e f = rw (e, routed_to, f) refl

routed_to_again :
    (event : TurnEvent) (handle : Handle) (person : Option Person) (st : Store)
    → routed_to event handle person (routed_to event handle person st).1
      ≡ routed_to event handle person st
unfolding routed_to
routed_to_again event handle person st =
    let c = ensure_channel event handle person st in
    let owner = owner_of event person in
    let v = get_or_create_conversation c.0.id owner c.1 in
    let kept : v.1.channels ≡ c.1.channels = (row-Untouched c.0.id owner c.1).1 in
    routed_of event handle person v.1 v.1 v.1 c.0 v.0
      (ensure_channel_found event handle person v.1 c.0
        (ap (Dict.get event.channel) kept ∙ (ensure_channel_stored event handle person st).0))
      (get_or_create_conversation_again c.0.id owner c.1)

routed_to-Untouched :
    (event : TurnEvent) (handle : Handle) (person : Option Person) (st : Store)
    → Untouched st (routed_to event handle person st).1
unfolding routed_to
routed_to-Untouched event handle person st =
    let c = ensure_channel event handle person st in
    let row = row-Untouched c.0.id (owner_of event person) c.1 in
    let chan = (ensure_channel_stored event handle person st).1 in
    (row.0.0 ∙ chan.0, row.0.1 ∙ chan.1)

sender_of_kept :
    (st st' : Store) (handle : Handle)
    → Untouched st st'
    → sender_of st' handle ≡ sender_of st handle
unfolding sender_of get_person get_person_by_handle
sender_of_kept st st' handle (people, handles) = rw (people, handles) refl

runs_for_kept :
    (roster : Roster) (event : TurnEvent) (handle : Handle) (st st' : Store)
    → Untouched st st'
    → runs_for roster event handle st' ≡ runs_for roster event handle st
unfolding runs_for
runs_for_kept roster event handle st st' same =
    rw (sender_of_kept st st' handle same, runs_for) refl

-- A claim about `resolve` follows from one for each branch.
pub resolve_cases {ℓ} :
    (P : Option (Resolution × Store) → Type ℓ) (roster : Roster) (event : TurnEvent) (st : Store)
    → P none
    → ((handle : Handle) (person : Option Person)
        → event.handle ≡ some handle
        → runs_for roster event handle st ≡ some person
        → P (some (routed_to event handle person st)))
    → P (resolve roster event st)
unfolding resolve resolve_handle
resolve_cases P roster event st unknown known = go event.handle refl
  where
    go : (h : Option Handle) → event.handle ≡ h → P (resolve_handle roster event st h)
    go none e = unknown
    go (some handle) e = elim (Option-cases (runs_for roster event handle st)) [
      | inl refused ↦ rw (refused, resolve_handle) unknown
      | inr (person, runs) ↦ rw (runs, resolve_handle) (known handle person e runs)
    ]

resolve_known :
    (roster : Roster) (event : TurnEvent) (st : Store) (handle : Handle) (person : Option Person)
    → event.handle ≡ some handle
    → runs_for roster event handle st ≡ some person
    → resolve roster event st ≡ some (routed_to event handle person st)
unfolding resolve resolve_handle
resolve_known roster event st handle person e runs = ap (resolve_handle roster event st) e ∙ known
  where
    known : resolve_handle roster event st (some handle) ≡ some (routed_to event handle person st)
    known = rw (runs, resolve_handle) refl

-- Resolving is idempotent: once an event was resolved, the same event resolves to the same
-- channel, conversation, person and speaker, and the second time no row is written.
pub resolve_again :
    (roster : Roster) (event : TurnEvent) (st st' : Store) (r : Resolution)
    → resolve roster event st ≡ some (r, st')
    → resolve roster event st' ≡ some (r, st')
resolve_again roster event st st' r =
    resolve_cases (λ o. o ≡ some (r, st') → resolve roster event st' ≡ some (r, st')) roster event
      st (λ e. cc)
      (λ handle person h runs e.
        let stable = routed_to_again event handle person st in
        let kept =
          runs_for_kept roster event handle st (routed_to event handle person st).1
            (routed_to-Untouched event handle person st) in
        let again =
          resolve_known roster event (routed_to event handle person st).1 handle person h
            (kept ∙ runs) in
        let same : routed_to event handle person st ≡ (r, st') = cc in
        subst (λ q. resolve roster event q.1 ≡ some q) same (again ∙ ap some stable))

-- The answer of `resolve` is for the event's handle, on the channel of the event, in a conversation of
-- that channel.
abbrev pub Belongs : Roster → TurnEvent → Store → Resolution → Type 0
Belongs roster event st r =
    (handle : Handle) × (event.handle ≡ some handle)
    × RunsFor roster event handle st r.person
    × OwnedBy event.chat.kind r.person r.conversation.person_id
    × (r.conversation.channel_id ≡ r.channel.id)

-- A turn that resolves runs for the person whose handle the event has, or, in a group whose chat is
-- configured, for nobody when no person has the handle; its conversation is one of its channel, in a
-- direct chat the sender's own and in a group one of no person.
pub resolve-Belongs :
    (roster : Roster) (event : TurnEvent) (st st' : Store) (r : Resolution)
    → resolve roster event st ≡ some (r, st')
    → Belongs roster event st r
unfolding routed_to
resolve-Belongs roster event st st' r =
    resolve_cases (λ o. o ≡ some (r, st') → Belongs roster event st r) roster event st (λ e. cc)
      (λ handle person h runs e.
        let same : routed_to event handle person st ≡ (r, st') = cc in
        let c = ensure_channel event handle person st in
        let row = created-RowOf c.0.id (owner_of event person) c.1 in
        let owned = owner_of-OwnedBy roster event handle st person runs in
        subst (λ q. Belongs roster event st q.0) same
          (
            handle,
            h,
            runs_for-RunsFor roster event handle st person runs,
            subst (OwnedBy event.chat.kind person) (sym row.1) owned,
            row.0,
          ))
