-- ===== src/Turns/Senders.antt =====
-- Whom a turn runs for, and whose its conversation is: the first half of `resolve` of
-- core/joshua_core/turns.py.
use joshua_ai.Base.{
  String, false, true, if_cases, eq_of_beq, beq_self, sym, ◌≢◌, ◌==◌, Pair_eq, Option, some, none,
  ◌≡◌, refl, ap, ◌∙◌, String_eq, Option_eq, arith, Option-cases, inl, inr, subst,
}
use joshua_ai.Base.Dict
use joshua_ai.Roster.{Roster, groups_by_chat, Group}
use joshua_ai.Turns.{
  ChatKind, dm, TurnEvent, Handle, Store, Person, group, sender_of, get_person,
  get_person_by_handle, owner_of, runs_for,
}

-- Who a turn may run for.
abbrev MayRun : Roster → TurnEvent → Handle → Store → Option Person → Type 0
MayRun roster event handle st (some p) = sender_of st handle ≡ some p
MayRun roster event handle st none =
    (sender_of st handle ≡ none)
    × (event.chat.kind ≡ group)
    × ((g : Group) × (groups_by_chat roster handle.type event.chat.id ≡ some g))

runs_for-MayRun :
    (roster : Roster) (event : TurnEvent) (handle : Handle) (st : Store) (person : Option Person)
    → runs_for roster event handle st ≡ some person
    → MayRun roster event handle st person
unfolding runs_for
runs_for-MayRun roster event handle st (some p) e = ground arith
runs_for-MayRun roster event handle st none e =
    elim (Option-cases (groups_by_chat roster handle.type event.chat.id)) [
      | inl missing ↦ absurd (ground arith)
      | inr (g, found) ↦ (ground arith, ground arith, (g, found))
    ]

none-some : {p : Person} → none ≡ some p → ⊥
none-some e = ground arith

not_cli : (t : String) → t ≡ "cli" → (t == "cli") ≡ false → ⊥
not_cli t same other = let self = subst (λ u. (t == u) ≡ true) same (beq_self t) in cc

-- The row of a person that a handle belongs to: the terminal's handle is the person's id, and any other
-- is looked up in the table of handles.
pub data HandleOf (st : Store) (handle : Handle) (p : Person) : Type 0 where
  terminal : handle.type ≡ "cli" → Dict.get handle.id st.people ≡ some p → HandleOf st handle p
  listed :
      (person_id : String)
      → handle.type ≢ "cli"
      → Dict.get (handle.type, handle.id) st.handles ≡ some person_id
      → Dict.get person_id st.people ≡ some p
      → HandleOf st handle p

-- Who a turn is for: a person who has the handle, or nobody, in a configured group, where no person
-- has it.
abbrev pub RunsFor : Roster → TurnEvent → Handle → Store → Option Person → Type 0
RunsFor roster event handle st (some p) = HandleOf st handle p
RunsFor roster event handle st none =
    ((p : Person) → HandleOf st handle p → ⊥)
    × (event.chat.kind ≡ group)
    × ((g : Group) × (groups_by_chat roster handle.type event.chat.id ≡ some g))

-- Whose the conversation is: the person's in a direct chat, and nobody's in a group.
abbrev pub OwnedBy : ChatKind → Option Person → Option String → Type 0
OwnedBy dm none person_id = ⊥
OwnedBy dm (some p) person_id = person_id ≡ some p.id
OwnedBy group person person_id = person_id ≡ none

sender_of-HandleOf :
    (st : Store) (handle : Handle) (p : Person)
    → sender_of st handle ≡ some p
    → HandleOf st handle p
unfolding sender_of get_person get_person_by_handle
sender_of-HandleOf st handle p e =
    if_cases (λ o. o ≡ some p → HandleOf st handle p) (handle.type == "cli")
      (get_person st handle.id) (get_person_by_handle st handle.type handle.id)
      (λ cli h. terminal (eq_of_beq handle.type "cli" cli) h)
      (λ other h. elim (Option-cases (Dict.get (handle.type, handle.id) st.handles)) [
        | inl missing ↦
            let gone : get_person_by_handle st handle.type handle.id ≡ none =
              rw (missing, get_person_by_handle) refl in
            absurd (ground (arith, sym gone ∙ h))
        | inr (person_id, found) ↦
            let asked : get_person_by_handle st handle.type handle.id ≡ get_person st person_id =
              rw (found, get_person_by_handle) refl in
            let differs : handle.type ≢ "cli" = λ same. not_cli handle.type same other in
            listed person_id differs found (sym asked ∙ h)
      ])
      e

HandleOf-sender_of :
    (st : Store) (handle : Handle) (p : Person)
    → HandleOf st handle p
    → sender_of st handle ≡ some p
unfolding sender_of get_person get_person_by_handle
HandleOf-sender_of st handle p (terminal cli found) = rw cli found
HandleOf-sender_of st handle p (listed person_id differs held found) =
    let asked : get_person_by_handle st handle.type handle.id ≡ get_person st person_id =
      rw (held, get_person_by_handle) refl in
    if_cases (λ o. o ≡ some p) (handle.type == "cli") (get_person st handle.id)
      (get_person_by_handle st handle.type handle.id)
      (λ cli. absurd (differs (eq_of_beq handle.type "cli" cli))) (λ _. asked ∙ found)

pub runs_for-RunsFor :
    (roster : Roster) (event : TurnEvent) (handle : Handle) (st : Store) (person : Option Person)
    → runs_for roster event handle st ≡ some person
    → RunsFor roster event handle st person
runs_for-RunsFor roster event handle st (some p) e =
    sender_of-HandleOf st handle p (runs_for-MayRun roster event handle st (some p) e)
runs_for-RunsFor roster event handle st none e =
    let (unknown, in_group, listed_group) = runs_for-MayRun roster event handle st none e in
    (
      λ p held. none-some (sym unknown ∙ HandleOf-sender_of st handle p held),
      in_group,
      listed_group,
    )

owned_by :
    (event : TurnEvent) (person : Option Person) (kind : ChatKind)
    → event.chat.kind ≡ kind
    → (person ≡ none → kind ≡ group)
    → OwnedBy kind person (owner_of event person)
owned_by event (some p) dm e h = rw e refl
owned_by event none dm e h = absurd (ground (arith, h refl))
owned_by event person group e h = rw e refl

pub owner_of-OwnedBy :
    (roster : Roster) (event : TurnEvent) (handle : Handle) (st : Store) (person : Option Person)
    → runs_for roster event handle st ≡ some person
    → OwnedBy event.chat.kind person (owner_of event person)
owner_of-OwnedBy roster event handle st person e =
    owned_by event person event.chat.kind refl
      (λ nobody. (runs_for-MayRun roster event handle st none (e ∙ ap some nobody)).1)
