-- ===== src/Destinations/Telegram.antt =====
-- The chats that the Telegram adapter gives: `resolve_ref` of channels/joshua_channels/adapters/telegram.py.
use joshua_ai.Base.{
  String, true, ◌&&◌, ◌==◌, String_eq, Option, some, none, List, [], ◌∷◌, if_cases, is_some, ◌≡◌,
  refl, subst, sym, ◌∙◌, arith, Option-cases, inl, inr, beq_self, elem,
}
use joshua_ai.Roster.{Person, Group, person, has_handle, handle_ids, groups_by_chat, find_group}
use joshua_ai.Destinations.{
  Settings, after_prefix, group_by_id, first_handle, telegram_dm, telegram_group, telegram,
}
use joshua_ai.Destinations.Sound.{Owned, telegram_chat, IsGroup, Sound}

pub none-some : {s : String} → none ≡ some s → ⊥
none-some e = ground arith

pub some-same : {s t : String} → some s ≡ some t → s ≡ t
some-same e = cc

pub find_group-some :
    (gs : List Group) (t group_id : String) (g : Group)
    → group_by_id gs t group_id ≡ some g
    → is_some (find_group gs t g.chat_id) ≡ true
unfolding group_by_id find_group
find_group-some [] t group_id g e = ground arith
find_group-some (x ∷ gs) t group_id g e =
    if_cases (λ (o : Option Group). o ≡ some g → is_some (find_group (x ∷ gs) t g.chat_id) ≡ true)
      (x.channel == t && x.id == group_id) (some x) (group_by_id gs t group_id)
      (λ here found.
        let same : x.chat_id ≡ g.chat_id = cc in
        let there : (x.chat_id == g.chat_id) ≡ true =
          subst (λ c. (x.chat_id == c) ≡ true) same (beq_self x.chat_id) in
        ground arith)
      (λ other found. let later = find_group-some gs t group_id g found in ground arith) e

first-elem :
    (hs : List String) (h : String)
    → (elim hs as (λ _. Option String) [ [] ↦ none | x ∷ xs ↦ some x ]) ≡ some h
    → elem h hs ≡ true
first-elem [] h e = ground arith
first-elem (x ∷ xs) h e =
    let same : x ≡ h = cc in
    let found : (x == h) ≡ true = subst (λ y. (x == y) ≡ true) same (beq_self x) in ground arith

pub first_handle-has_handle :
    (p : Person) (t chat_id : String)
    → first_handle p t ≡ some chat_id
    → has_handle p t chat_id ≡ true
unfolding first_handle has_handle
first_handle-has_handle p t chat_id e = first-elem (handle_ids p t) chat_id e

telegram_dm-Owned :
    (cfg : Settings) (person_id chat_id : String)
    → telegram_dm cfg.roster person_id ≡ some chat_id
    → Owned cfg "telegram" person_id chat_id
unfolding telegram_dm
telegram_dm-Owned cfg person_id chat_id e = elim (Option-cases (person cfg.roster person_id)) [
  | inl nobody ↦
      let gone : telegram_dm cfg.roster person_id ≡ none = rw (nobody, telegram_dm) refl in
      absurd (none-some (sym gone ∙ e))
  | inr (p, known) ↦
      let given : telegram_dm cfg.roster person_id ≡ first_handle p "telegram" =
        rw (known, telegram_dm) refl in
      telegram_chat p person_id chat_id known
        (first_handle-has_handle p "telegram" chat_id (sym given ∙ e))
]

telegram_group-IsGroup :
    (cfg : Settings) (group_id chat_id : String)
    → telegram_group cfg.roster group_id ≡ some chat_id
    → IsGroup cfg "telegram" chat_id
unfolding telegram_group groups_by_chat
telegram_group-IsGroup cfg group_id chat_id e =
    elim (Option-cases (group_by_id cfg.roster.groups "telegram" group_id)) [
      | inl nothing ↦
          let gone : telegram_group cfg.roster group_id ≡ none =
            rw (nothing, telegram_group) refl in
          absurd (none-some (sym gone ∙ e))
      | inr (g, known) ↦
          let given : telegram_group cfg.roster group_id ≡ some g.chat_id =
            rw (known, telegram_group) refl in
          let same : g.chat_id ≡ chat_id = some-same (sym given ∙ e) in
          subst (IsGroup cfg "telegram") same
            (find_group-some cfg.roster.groups "telegram" group_id g known)
    ]

-- The Telegram adapter keeps its word.
pub telegram-Sound : (cfg : Settings) → Sound cfg "telegram" (telegram cfg.roster)
unfolding telegram after_prefix
telegram-Sound cfg = (
  λ person_id chat_id e. telegram_dm-Owned cfg person_id chat_id e,
  λ group_id chat_id e. telegram_group-IsGroup cfg group_id chat_id e,
)
