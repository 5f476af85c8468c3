-- ===== src/Imessage/Json.antt =====
-- JSON as Python reads it, with the coercions of
-- channels/joshua_channels/adapters/imessage/normalize.py.
use joshua_ai.Base.{
  ℕ, Bool, true, false, not, Option, some, none, [], ◌==◌, ℕ_eq, List_eq, is_empty, ltb,
  if◌then◌else◌,
}
use joshua_ai.Base.Text.{Text, strip}

pub data ℤ : Type 0 where
  pos negsuc : ℕ → ℤ

-- What `int` makes of a float: its whole part, or ValueError, or OverflowError.
pub data Whole : Type 0 where
  whole : ℤ → Whole
  not_a_number infinite : Whole

-- A float comes with whether it counts as true and its text.
mutual
  pub data Json : Type 0 where
    null : Json
    boolean : Bool → Json
    number : ℤ → Json
    float : Bool → Whole → Text → Json
    text : Text → Json
    array : Items → Json
    object : Fields → Json

  pub data Items : Type 0 where
    no_items : Items
    item : Json → Items → Items

  pub data Fields : Type 0 where
    no_fields : Fields
    field : Text → Json → Fields → Fields

-- What Python's `int` makes of a text, none where it raises, and the text of a number.
pub record Python : Type 0 where
  pub int_of : Text → Option ℤ
  pub str_of : ℕ → Text

-- `d.get(key)`, which is None for a missing key.
unfoldable pub get : Text → Fields → Json
get key no_fields = null
get key (field name value more) = let rest = get key more in if name == key then value else rest

abbrev pub is_zero : ℤ → Bool
is_zero (pos n) = n == 0
is_zero (negsuc n) = false

-- `n > limit`
abbrev pub exceeds : ℤ → ℕ → Bool
exceeds (pos n) limit = ltb limit n
exceeds (negsuc n) limit = false

-- A number, where none below 0 is told apart from 0.
abbrev pub at_least_zero : ℤ → ℕ
at_least_zero (pos n) = n
at_least_zero (negsuc n) = 0

-- `bool(value)`
unfoldable pub is_truthy : Json → Bool
is_truthy null = false
is_truthy (boolean b) = b
is_truthy (number n) = not (is_zero n)
is_truthy (float b w t) = b
is_truthy (text t) = not (is_empty t)
is_truthy (array no_items) = false
is_truthy (array (item j js)) = true
is_truthy (object no_fields) = false
is_truthy (object (field name value more)) = true

-- `_as_int` with no default: the text of an array or an object is no number.
unfoldable pub as_int : Python → Json → Option ℤ
as_int py null = none
as_int py (boolean b) = none
as_int py (number n) = some n
as_int py (float b w t) = py.int_of (strip t)
as_int py (text t) = py.int_of (strip t)
as_int py (array js) = none
as_int py (object members) = none

unfoldable pub as_str : Json → Text
as_str (text t) = t
as_str _ = []

unfoldable pub mapping : Json → Fields
mapping (object members) = members
mapping _ = no_fields
