-- ===== src/Destinations/Registered.antt =====
-- Every adapter that the program registers says truly whose a chat is.
use joshua_ai.Base.{
  String, Option, some, none, [], ◌≡◌, refl, sym, ◌∙◌, subst, arith, Option-cases, inl, inr,
  String_eq, ◌==◌, if_cases, eq_of_beq,
}
use joshua_ai.Base.Dict
use joshua_ai.Base.Dict.{Dict}
use joshua_ai.Roster.{person, groups_by_chat}
use joshua_ai.Destinations.{
  Adapter, Settings, cut_ref, after_prefix, non_empty, first_handle, group_by_id, telegram,
}
use joshua_ai.Destinations.Adapters.{
  cli, chat_guid, service_of, imessage_dm, imessage_group, imessage, register_adapters, Registered,
}
use joshua_ai.Destinations.Sound.{Owned, outbox, imessage_chat, IsGroup, Sound, AllSound}
use joshua_ai.Destinations.Telegram.{
  telegram-Sound, none-some, some-same, find_group-some, first_handle-has_handle,
}

non_empty-some : (o : Option String) (s : String) → non_empty o ≡ some s → o ≡ some s
unfolding non_empty
non_empty-some none s e = ground arith
non_empty-some (some t) s e = ground arith

cli-Sound : (cfg : Settings) → Sound cfg "cli" cli
unfolding cli cut_ref
cli-Sound cfg = (
  λ person_id chat_id e.
      subst (Owned cfg "cli" person_id) (some-same (non_empty-some (some person_id) chat_id e))
        (outbox person_id),
  λ group_id chat_id e. absurd (none-some e),
)

imessage_dm-Owned :
    (cfg : Settings) (person_id chat_id : String)
    → imessage_dm cfg.roster (service_of cfg.channels.dm_service) person_id ≡ some chat_id
    → Owned cfg "imessage" person_id chat_id
unfolding imessage_dm
imessage_dm-Owned cfg person_id chat_id e =
    let service = service_of cfg.channels.dm_service in
    elim (Option-cases (person cfg.roster person_id)) [
      | inl nobody ↦
          let gone : imessage_dm cfg.roster service person_id ≡ none =
            rw (nobody, imessage_dm) refl in
          absurd (none-some (sym gone ∙ e))
      | inr (p, known) ↦ elim (Option-cases (non_empty (first_handle p "imessage"))) [
        | inl unreachable ↦
            let gone : imessage_dm cfg.roster service person_id ≡ none =
              rw (known, imessage_dm, unreachable) refl in
            absurd (none-some (sym gone ∙ e))
        | inr (handle, first) ↦
            let given : imessage_dm cfg.roster service person_id ≡ some (chat_guid service handle) =
              rw (known, imessage_dm, first) refl in
            subst (Owned cfg "imessage" person_id) (some-same (sym given ∙ e)) (
              imessage_chat p person_id handle known (
                first_handle-has_handle p "imessage" handle
                  (non_empty-some (first_handle p "imessage") handle first)))
      ]
    ]

imessage_group-IsGroup :
    (cfg : Settings) (group_id chat_id : String)
    → imessage_group cfg.roster group_id ≡ some chat_id
    → IsGroup cfg "imessage" chat_id
unfolding imessage_group groups_by_chat
imessage_group-IsGroup cfg group_id chat_id e =
    elim (Option-cases (group_by_id cfg.roster.groups "imessage" group_id)) [
      | inl nothing ↦
          let gone : imessage_group cfg.roster group_id ≡ none =
            rw (nothing, imessage_group) refl in
          absurd (none-some (sym gone ∙ e))
      | inr (g, known) ↦
          let given : imessage_group cfg.roster group_id ≡ some g.chat_id =
            rw (known, imessage_group) refl in
          subst (IsGroup cfg "imessage") (some-same (sym given ∙ e))
            (find_group-some cfg.roster.groups "imessage" group_id g known)
    ]

imessage-Sound :
    (cfg : Settings)
    → Sound cfg "imessage" (imessage cfg.roster (service_of cfg.channels.dm_service))
unfolding imessage after_prefix
imessage-Sound cfg = (
  λ person_id chat_id e. imessage_dm-Owned cfg person_id chat_id e,
  λ group_id chat_id e. imessage_group-IsGroup cfg group_id chat_id e,
)

-- Every adapter of a registry says truly whose a chat is.
abbrev SoundIn : Settings → Dict String Adapter → Type 0
SoundIn cfg adapters =
    (t : String) (adapter : Adapter) → Dict.get t adapters ≡ some adapter → Sound cfg t adapter

put-SoundIn :
    (cfg : Settings) (t : String) (adapter : Adapter) (adapters : Dict String Adapter)
    → Sound cfg t adapter
    → SoundIn cfg adapters
    → SoundIn cfg (Dict.put t adapter adapters)
put-SoundIn cfg t adapter adapters sound others u found e =
    if_cases {A = Option Adapter} (λ o. o ≡ some found → Sound cfg u found) (t == u) (some adapter)
      (Dict.get u adapters)
      (λ same h.
        subst (Sound cfg u) (some-adapter h)
          (subst (λ v. Sound cfg v adapter) (eq_of_beq t u same) sound))
      (λ _ h. others u found h) (sym (Dict.get-put t u adapter adapters) ∙ e)
  where
    some-adapter : {a b : Adapter} → some a ≡ some b → a ≡ b
    some-adapter h = cc

no_adapter-SoundIn : (cfg : Settings) → SoundIn cfg []
unfolding Dict.get
no_adapter-SoundIn cfg t adapter e = absurd (ground arith)

pub register_adapters-AllSound : (cfg : Settings) → Registered cfg → AllSound cfg
unfolding register_adapters
register_adapters-AllSound cfg registered =
    let terminal = put-SoundIn cfg "cli" cli [] (cli-Sound cfg) (no_adapter-SoundIn cfg) in
    let more =
      if_cases (SoundIn cfg) cfg.channels.telegram _ _
        (λ _. put-SoundIn cfg "telegram" (telegram cfg.roster) _ (telegram-Sound cfg) terminal)
        (λ _. terminal) in
    subst (SoundIn cfg) (sym registered) (
      if_cases (SoundIn cfg) cfg.channels.imessage _ _
        (λ _. put-SoundIn cfg "imessage" _ _ (imessage-Sound cfg) more) (λ _. more))
