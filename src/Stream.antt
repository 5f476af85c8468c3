-- ===== src/Stream.antt =====
-- The event stream of a turn: the frames that `TurnService._sse` of core/joshua_core/turns.py
-- writes, and `_iter_sse` of channels/joshua_channels/core_client.py, which reads them. JSON and
-- httpx's split into lines are parameters.
pub mod RoundTrip
mod Tests
use joshua_ai.Base.{
  ℕ, String, Bool, true, false, ◌&&◌, Option, some, none, List, [], ◌∷◌, ◌++◌, ◌==◌, List_eq, ℕ_eq,
  map, is_empty, drop, if◌then◌else◌,
}
use joshua_ai.Base.Text.{Text, codes, cut, strip, join, starts_with}

-- The JSON of Python: values, of which some are dicts.
pub record Json : Type 1 where
  pub Value : Type 0
  pub dumps : Value → Text
  -- none where it raises
  pub loads : Text → Option Value
  pub is_dict : Value → Bool
  -- `{}`, `{"text": raw}` and `{"value": value}`
  pub empty_dict : Value
  pub text_dict : Text → Value
  pub value_dict : Value → Value
  -- the payloads of `_sse`
  pub delta : Text → Value
  pub done : Text → Text → List Text → Value
  pub failure : Text → Value

-- How a turn ends: its text and its tools, or an exception.
pub data Ending : Type 0 where
  finished : Text → List Text → Ending
  raised : Text → Ending

module _ (json : Json) where
  abbrev pub Frame : Type 0
  Frame = Text × json.Value

  -- What `run` puts into the queue: a delta for each chunk, then the end.
  unfoldable pub ending : Text → Ending → Frame
  ending turn_id (finished text tools) = (codes "done", json.done turn_id text tools)
  ending turn_id (raised message) = (codes "error", json.failure message)

  unfoldable pub frames : Text → List Text → Ending → List Frame
  frames turn_id [] e = ending turn_id e ∷ []
  frames turn_id (chunk ∷ chunks) e = (codes "delta", json.delta chunk) ∷ frames turn_id chunks e

  -- A frame as it is sent: three lines, the last one empty.
  unfoldable pub frame_lines : Frame → List Text
  frame_lines (name, value) =
      (codes "event: " ++ name) ∷ (codes "data: " ++ json.dumps value) ∷ [] ∷ []

  abbrev pub all_lines : List Frame → List Text
  all_lines [] = []
  all_lines (f ∷ fs) = frame_lines f ++ all_lines fs

  abbrev pub line_text : Text → Text
  line_text line = line ++ b'\n' ∷ []

  abbrev pub lines_text : List Text → Text
  lines_text [] = []
  lines_text (line ∷ lines) = line_text line ++ lines_text lines

  unfoldable pub sse : List Frame → Text
  sse fs = lines_text (all_lines fs)

  -- `_parse_data`
  unfoldable pub parse_data : List Text → json.Value
  parse_data lines =
      let raw = join (b'\n' ∷ []) lines in
      let loaded : json.Value = elim (json.loads raw) [
        | none ↦ json.text_dict raw
        | some value ↦ if json.is_dict value then value else json.value_dict value
      ] in
      if is_empty raw then json.empty_dict else loaded

  -- One line of `_iter_sse` that is not empty: the name and the data lines after it.
  unfoldable pub read_line : Text → Option Text × List Text → Option Text × List Text
  read_line line (name, data_lines) =
      let parted : Text × Text = elim (cut b':' line) [ none ↦ (line, []) | some p ↦ p ] in
      if parted.0 == codes "event"
      then (some (strip parted.1), data_lines)
      else if parted.0 == codes "data"
      then (
        name,
        data_lines ++ (if starts_with (codes " ") parted.1 then drop 1 parted.1 else parted.1) ∷ [],
      )
      else (name, data_lines)

  -- `yield` of a frame that has a name.
  abbrev pub emit : Option Text × List Text → List Frame
  emit (none, data_lines) = []
  emit (some name, data_lines) = (name, parse_data data_lines) ∷ []

  unfoldable pub iter_sse : List Text → Option Text × List Text → List Frame
  iter_sse [] st = emit st
  iter_sse (line ∷ lines) st =
      let blank = emit st ++ iter_sse lines (none, []) in
      let more = iter_sse lines (read_line line st) in if is_empty line then blank else more
