-- ===== src/Usage/Tests.antt =====
-- The messages of a call, and each theorem on them.
use joshua_ai.Base.{ℕ, String, some, none, List, [], ◌∷◌, ◌≡◌, refl, String_eq}
use joshua_ai.Base.Dict
use joshua_ai.Base.Dict.{Dict}
use joshua_ai.Usage.{
  Value, number, below_zero, from_sdk, sum_from, Message, assistant_message, other_message,
  new_meter, message_key, note, note_all, usage, flush,
}

program : Unit {0}
unfolding Dict.get Dict.put from_sdk sum_from message_key note note_all usage flush
program = tt

abbrev numbered : ℕ → String
numbered n = "#0"

abbrev told : Dict String Value
told = ("input_tokens", number 7) ∷ ("output_tokens", number 2) ∷ []

-- One model message in two parts, and another one.
abbrev parts : List Message
parts =
    assistant_message (some told) (some "m1")
    ∷ assistant_message (some told) (some "m1")
    ∷ other_message
    ∷ assistant_message (some (("input_tokens", below_zero 1) ∷ [])) none
    ∷ []

counted_once :
    usage (note_all numbered parts new_meter)
    ≡ record { input = 7; output = 2; cache_read = 0; cache_write = 0 }
unfolding program
counted_once = refl

nothing_seen : flush [] new_meter ≡ []
unfolding program
nothing_seen = refl
