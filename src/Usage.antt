-- ===== src/Usage.antt =====
-- core/joshua_core/engine/usage.py: the tokens of a model call. A value of the SDK's `usage` dict
-- that is a number is taken by its whole part; the text of a number in a key is a parameter.
pub mod Meter
mod Tests
use joshua_ai.Base.{
  ℕ, ◌+◌, String, Bool, true, false, Option, some, none, List, [], ◌∷◌, ◌++◌, ◌==◌, String_eq,
  if◌then◌else◌, length,
}
use joshua_ai.Base.Dict
use joshua_ai.Base.Dict.{Dict, values}

-- A value of the dict: a number from 0 on, one below 0, a Boolean, anything else.
pub data Value : Type 0 where
  number below_zero : ℕ → Value
  flag : Bool → Value
  other_value : Value

-- `_count`
abbrev pub count : Option Value → ℕ
count (some (number n)) = n
count (some (below_zero n)) = 0
count (some (flag b)) = 0
count (some other_value) = 0
count none = 0

pub record Usage : Type 0 where
  pub input : ℕ
  pub output : ℕ
  pub cache_read : ℕ
  pub cache_write : ℕ

abbrev pub zero_usage : Usage
zero_usage = record { input = 0; output = 0; cache_read = 0; cache_write = 0 }

abbrev pub total : Usage → ℕ
total u = u.input + u.output + u.cache_read + u.cache_write

abbrev pub plus : Usage → Usage → Usage
plus u v = record {
  input = u.input + v.input;
  output = u.output + v.output;
  cache_read = u.cache_read + v.cache_read;
  cache_write = u.cache_write + v.cache_write;
}

unfoldable pub from_sdk : Dict String Value → Usage
from_sdk raw = record {
  input = count (Dict.get "input_tokens" raw);
  output = count (Dict.get "output_tokens" raw);
  cache_read = count (Dict.get "cache_read_input_tokens" raw);
  cache_write = count (Dict.get "cache_creation_input_tokens" raw);
}

-- `Usage.sum`, from the left.
unfoldable pub sum_from : Usage → List Usage → Usage
sum_from acc [] = acc
sum_from acc (u ∷ us) = sum_from (plus acc u) us

-- A message of the SDK, with its `usage` where that is a dict.
pub data Message : Type 0 where
  result_message : Option (Dict String Value) → Message
  assistant_message : Option (Dict String Value) → Option String → Message
  other_message : Message

pub record UsageMeter : Type 0 where
  pub messages : Dict String Usage
  pub result : Option Usage
  pub seen : Bool

abbrev pub new_meter : UsageMeter
new_meter = record { messages = []; result = none; seen = false }

module _ (numbered : ℕ → String) where
  -- `message_id or f"#{len(self._messages)}"`
  unfoldable pub message_key : Option String → Dict String Usage → String
  message_key none messages = numbered (length messages)
  message_key (some id) messages = if id == "" then numbered (length messages) else id

  unfoldable pub note : Message → UsageMeter → UsageMeter
  note (result_message none) s = record s { seen = true }
  note (result_message (some raw)) s = record s { seen = true; result = some (from_sdk raw) }
  note (assistant_message none id) s = s
  note (assistant_message (some raw) id) s = record s {
    seen = true;
    messages = Dict.put (message_key id s.messages) (from_sdk raw) s.messages;
  }
  note other_message s = s

  unfoldable pub note_all : List Message → UsageMeter → UsageMeter
  note_all [] s = s
  note_all (m ∷ ms) s = note_all ms (note m s)

unfoldable pub usage : UsageMeter → Usage
usage s = elim s.result [ some u ↦ u | none ↦ sum_from zero_usage (values s.messages) ]

-- `flush`, on a list that is there.
unfoldable pub flush : List Usage → UsageMeter → List Usage
flush out s = if s.seen then out ++ usage s ∷ [] else out
