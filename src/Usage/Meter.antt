-- ===== src/Usage/Meter.antt =====
-- Each token is counted once.
use joshua_ai.Base.{
  ℕ, String, true, false, some, none, List, [], ◌∷◌, ◌==◌, String_eq, ◌≡◌, refl, ap, arith,
  beq_self,
}
use joshua_ai.Base.Dict
use joshua_ai.Base.Dict.{Dict, values}
use joshua_ai.Usage.{
  Value, Usage, from_sdk, Message, result_message, assistant_message, other_message, UsageMeter,
  message_key, note, note_all, usage,
}

put-put :
    (k : String) (v : Usage) (d : Dict String Usage)
    → Dict.put k v (Dict.put k v d) ≡ Dict.put k v d
unfolding Dict.put
put-put k v [] = rw (beq_self k) refl
put-put k v ((j, w) ∷ d) = ground (arith, put-put k v d)

module _ (numbered : ℕ → String) where
  -- The parts of one model message have one id: noting the message again changes nothing.
  pub note_again :
      (raw : Dict String Value) (id : String) (s : UsageMeter)
      → (id == "") ≡ false
      → let once = note numbered (assistant_message (some raw) (some id)) s in
        note numbered (assistant_message (some raw) (some id)) once ≡ once
  unfolding note message_key
  note_again raw id s named =
      rw (named, message_key)
        (ap (λ d. record s { seen = true; messages = d }) (put-put id (from_sdk raw) s.messages))

  -- No later message of the list is a result with a usage.
  abbrev pub NoResult : List Message → Type 0
  NoResult [] = Unit
  NoResult (result_message none ∷ ms) = NoResult ms
  NoResult (result_message (some raw) ∷ ms) = ⊥
  NoResult (assistant_message raw id ∷ ms) = NoResult ms
  NoResult (other_message ∷ ms) = NoResult ms

  result-note_all :
      (ms : List Message) (s : UsageMeter)
      → NoResult ms
      → (note_all numbered ms s).result ≡ s.result
  unfolding note_all note
  result-note_all [] s h = refl
  result-note_all (result_message none ∷ ms) s h = result-note_all ms _ h
  result-note_all (result_message (some raw) ∷ ms) s h = absurd h
  result-note_all (assistant_message none id ∷ ms) s h = result-note_all ms _ h
  result-note_all (assistant_message (some raw) id ∷ ms) s h = result-note_all ms _ h
  result-note_all (other_message ∷ ms) s h = result-note_all ms _ h

  -- Once the call's result message told its usage, that is the usage of the call, whatever was
  -- noted before it and whatever comes after, another result aside.
  pub usage-result :
      (raw : Dict String Value) (ms : List Message) (s : UsageMeter)
      → NoResult ms
      → usage (note_all numbered ms (note numbered (result_message (some raw)) s)) ≡ from_sdk raw
  unfolding usage note
  usage-result raw ms s h =
      rw (result-note_all ms (record s { seen = true; result = some (from_sdk raw) }) h, usage) refl
