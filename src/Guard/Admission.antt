-- ===== src/Guard/Admission.antt =====
-- Who gets through: the verdict of `check` against an independent account of admission.
use joshua_ai.Base.{
  String, true, false, Option, none, some, [], ◌≡◌, ◌⊎◌, refl, ap, subst, if◌then◌else◌, arith,
  elem, String_eq, inl, inr, ltb, Bool-cases, Option-cases,
}
use joshua_ai.Roster.{Roster, Person, Group, people_by_handle, groups_by_chat}
use joshua_ai.Guard.{
  Guard, Inbound, Verdict, ChatKind, dm, group, unknown_sender, rate_limited, truncated, check,
  admit, refuse, noted, allow, group_for, note_unconfigured,
}
use joshua_ai.Guard.Cases.{passes, admit_cases, check_cases}
use joshua_ai.Guard.Rate.{rate-noted}

-- A message is attributable: to the person whose handle sent it or, from an unknown sender in a
-- configured group chat, to the group, when the group lists no members or lists this handle.
pub data Admits (cfg : Roster) (m : Inbound) : Option String → Option String → Type 0 where
  known :
      (p : Person)
      → people_by_handle cfg m.channel_type m.sender_handle ≡ some p
      → Admits cfg m (some p.id) none
  in_group :
      (g : Group)
      → people_by_handle cfg m.channel_type m.sender_handle ≡ none
      → m.chat_kind ≡ group
      → groups_by_chat cfg m.channel_type m.chat_id ≡ some g
      → (g.members ≡ []) ⊎ (elem m.sender_handle g.members ≡ true)
      → Admits cfg m none (some g.id)

-- `_group_for` names a group exactly for those messages.
group_for-some :
    (cfg : Roster) (m : Inbound) (kind : ChatKind) {gid : String}
    → m.chat_kind ≡ kind
    → people_by_handle cfg m.channel_type m.sender_handle ≡ none
    → group_for cfg m.channel_type m.chat_id kind m.sender_handle ≡ some gid
    → Admits cfg m none (some gid)
unfolding group_for
group_for-some cfg m dm k unknown e = cc
group_for-some cfg m group {gid} k unknown e =
    elim (Option-cases (groups_by_chat cfg m.channel_type m.chat_id)) [
      | inl missing ↦ ground (arith, missing)
      | inr (g, found) ↦
          subst (Admits cfg m none) {x = some g.id} (ground arith)
            (in_group g unknown k found (ground arith))
    ]

group_for-none :
    (cfg : Roster) (m : Inbound) (kind : ChatKind)
    → m.chat_kind ≡ kind
    → people_by_handle cfg m.channel_type m.sender_handle ≡ none
    → group_for cfg m.channel_type m.chat_id kind m.sender_handle ≡ none
    → {p g : Option String} → ¬ Admits cfg m p g
unfolding group_for
group_for-none cfg m kind k unknown e (known p found) = cc
group_for-none cfg m dm k unknown e (in_group g _ is_group found listed) = cc
group_for-none cfg m group k unknown e (in_group g _ is_group found listed) = ground arith

-- The three answers of the guard, each with the condition under which it is given.
pub data Answer (cfg : Roster) (s : Guard) (m : Inbound) (v : Verdict) : Type 0 where
  let_through :
      v.allowed ≡ true
      → Admits cfg m v.person_id v.group_id
      → passes s m ≡ true
      → v.reason ≡ (if ltb s.max_text_chars m.text_len then some truncated else none)
      → Answer cfg s m v
  over_rate :
      v.allowed ≡ false
      → v.reason ≡ some rate_limited
      → ((p : Option String) × (g : Option String) × Admits cfg m p g)
      → passes s m ≡ false
      → Answer cfg s m v
  stranger :
      v.allowed ≡ false
      → v.reason ≡ some unknown_sender
      → ((p g : Option String) → ¬ Admits cfg m p g)
      → Answer cfg s m v

noted_keeps :
    (cfg : Roster) (s : Guard) (m : Inbound)
    → (passes (noted cfg s m) m ≡ passes s m) × ((noted cfg s m).max_text_chars ≡ s.max_text_chars)
unfolding noted note_unconfigured
noted_keeps cfg s m = (
  ap (λ l. (allow l (m.channel_type, m.sender_handle) m.now).0) (rate-noted cfg s m),
  ground arith,
)

admit-Answer :
    (cfg : Roster) (s : Guard) (m : Inbound) {p g : Option String}
    → Admits cfg m p g
    → Answer cfg s m (admit (noted cfg s m) m p g).0
admit-Answer cfg s m {p} {g} a =
    let keeps = noted_keeps cfg s m in
    admit_cases (λ r. Answer cfg s m r.0) (noted cfg s m) m p g
      (λ shut. unfold refuse in over_rate refl refl (p, g, a) (ground (arith, keeps)))
      (λ pass. elim (Bool-cases (ltb (noted cfg s m).max_text_chars m.text_len)) [
        | inl long ↦ rw long (let_through refl a (ground (arith, keeps)) (ground (arith, keeps)))
        | inr short ↦ rw short (let_through refl a (ground (arith, keeps)) (ground (arith, keeps)))
      ])

-- Every verdict is one of the three answers: an allowed message is attributed as `Admits` says and
-- marked when its text is over the cap, an attributable one is refused only for its rate, and any
-- other is refused as unknown.
pub check-Answer : (cfg : Roster) (s : Guard) (m : Inbound) → Answer cfg s m (check cfg s m).0
check-Answer cfg s m =
    check_cases (λ r. Answer cfg s m r.0) cfg s m (λ p e. admit-Answer cfg s m (known p e))
      (λ g e f. admit-Answer cfg s m (group_for-some cfg m m.chat_kind refl e f))
      (λ e f.
        unfold refuse in stranger refl refl (λ p g. group_for-none cfg m m.chat_kind refl e f))
