-- ===== src/Guard/Table.antt =====
-- The table of group chats that the roster does not list (`_note_unconfigured`).
use joshua_ai.Base.{
  ℕ, ◌≤◌, String, true, Option, none, some, List, [], ◌∷◌, ◌≡◌, ◌⊎◌, refl, if◌then◌else◌, arith,
  length, drop, length-drop, String_eq, Pair_eq, Bool-cases, inl, inr, leb, is_some,
}
use joshua_ai.Base.Dict
use joshua_ai.Base.Dict.{Dict}
use joshua_ai.Roster.{Roster, groups_by_chat}
use joshua_ai.Guard.{
  Guard, Inbound, UnconfiguredGroup, dm, group, check, admit, refuse, noted, note_unconfigured, run,
  init, unconfigured_ring_size,
}
use joshua_ai.Guard.Cases.{admit_cases, check_cases}

abbrev pub chat : Inbound → String × String
chat m = (m.channel_type, m.chat_id)

pub record IsTable (d : Dict (String × String) UnconfiguredGroup) : Type 0 where
  pub small : length d ≤ unconfigured_ring_size
  pub keyed : Dict.Distinct d

admit-unconfigured :
    (s : Guard) (m : Inbound) (p g : Option String)
    → (admit s m p g).1.unconfigured ≡ s.unconfigured
admit-unconfigured s m p g =
    admit_cases (λ r. r.1.unconfigured ≡ s.unconfigured) s m p g (λ _. unfold refuse in refl)
      (λ _. ground arith)

-- The verdict has no part in it: the table after `check` is the one after its first step.
check-unconfigured :
    (cfg : Roster) (s : Guard) (m : Inbound)
    → (check cfg s m).1.unconfigured ≡ (noted cfg s m).unconfigured
check-unconfigured cfg s m =
    let s' = noted cfg s m in
    check_cases (λ r. r.1.unconfigured ≡ s'.unconfigured) cfg s m
      (λ p _. admit-unconfigured s' m (some p.id) none)
      (λ g _ _. admit-unconfigured s' m none (some g)) (λ _ _. unfold refuse in refl)

-- The oldest entry makes room for a new one.
put-IsTable :
    (k : String × String) (u : UnconfiguredGroup) (d : Dict (String × String) UnconfiguredGroup)
    → IsTable d
    → IsTable (Dict.put k u (if leb unconfigured_ring_size (length d) then drop 1 d else d))
put-IsTable k u d v = elim (Bool-cases (leb unconfigured_ring_size (length d))) [
  | inl full ↦ rw full (record {
    small = omega (arith, Dict.length-put-le k u (drop 1 d), length-drop 1 d, v.small);
    keyed = Dict.put-Distinct k u (drop 1 d) (Dict.drop-Distinct 1 d v.keyed);
  })
  | inr room ↦ rw room (record {
    small = ground (arith, Dict.length-put-le k u d);
    keyed = Dict.put-Distinct k u d v.keyed;
  })
]

note_unconfigured-IsTable :
    (s : Guard) (m : Inbound)
    → IsTable s.unconfigured
    → IsTable (note_unconfigured s m).unconfigured
unfolding note_unconfigured
note_unconfigured-IsTable s m v = elim (Bool-cases (Dict.has (chat m) s.unconfigured)) [
  | inl old ↦ rw (old, note_unconfigured) v
  | inr new ↦ rw (new, note_unconfigured) (put-IsTable (chat m) _ s.unconfigured v)
]

noted-IsTable :
    (cfg : Roster) (s : Guard) (m : Inbound)
    → IsTable s.unconfigured
    → IsTable (noted cfg s m).unconfigured
unfolding noted
noted-IsTable cfg s m v = ground (arith, note_unconfigured-IsTable s m v)

run-IsTable :
    (s : Guard) (ms : List (Roster × Inbound))
    → IsTable s.unconfigured
    → IsTable (run s ms).unconfigured
unfolding run
run-IsTable s [] v = v
run-IsTable s ((cfg, m) ∷ rest) v =
    run-IsTable (check cfg s m).1 rest (rw check-unconfigured (noted-IsTable cfg s m v))

-- Whatever traffic comes, the table has at most 50 entries, and one for a chat.
pub run-init-IsTable :
    (max_text_chars per_minute : ℕ) (ms : List (Roster × Inbound))
    → IsTable (run (init max_text_chars per_minute) ms).unconfigured
run-init-IsTable max_text_chars per_minute ms =
    run-IsTable (init max_text_chars per_minute) ms
      (unfold init in record { small = omega arith; keyed = tt })

has-note_unconfigured :
    (s : Guard) (m : Inbound) → Dict.has (chat m) (note_unconfigured s m).unconfigured ≡ true
unfolding note_unconfigured
has-note_unconfigured s m = elim (Bool-cases (Dict.has (chat m) s.unconfigured)) [
  | inl old ↦ rw (old, note_unconfigured) old
  | inr new ↦ rw (new, note_unconfigured) (Dict.has-put_self (chat m) _ _)
]

-- A message in a group chat that the roster does not list leaves that chat in the table, also when
-- the message is refused or its sender is on the roster.
pub check_notes :
    (cfg : Roster) (s : Guard) (m : Inbound)
    → m.chat_kind ≡ group
    → groups_by_chat cfg m.channel_type m.chat_id ≡ none
    → Dict.has (chat m) (check cfg s m).1.unconfigured ≡ true
unfolding noted
check_notes cfg s m k e = rw check-unconfigured (rw (k, e, noted) (has-note_unconfigured s m))

-- No other message changes the table.
pub check_notes_only :
    (cfg : Roster) (s : Guard) (m : Inbound)
    → (m.chat_kind ≡ dm) ⊎ (is_some (groups_by_chat cfg m.channel_type m.chat_id) ≡ true)
    → (check cfg s m).1.unconfigured ≡ s.unconfigured
unfolding noted
check_notes_only cfg s m h = rw check-unconfigured (ground arith)
