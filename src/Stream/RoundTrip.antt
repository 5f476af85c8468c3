-- ===== src/Stream/RoundTrip.antt =====
-- What core streams is what channels reads.
use joshua_ai.Base.{
  true, false, ◌&&◌, some, none, List, [], ◌∷◌, ◌++◌, List_eq, ℕ_eq, is_empty, All, leb, ◌≡◌, refl,
  ap, ◌∙◌, all,
}
use joshua_ai.Base.Text.{Text, cut, strip, lstrip, rstrip, is_space, join, starts_with}
use joshua_ai.Stream.{
  Json, Ending, finished, raised, Frame, ending, frames, frame_lines, all_lines, lines_text, sse,
  parse_data, read_line, iter_sse,
}

-- A text of one line: printable ASCII only.
abbrev pub IsLine : Text → Type 0
IsLine line = all (λ c. leb 32 c && leb c 126) line ≡ true

-- What the stream relies on: a dict that was dumped loads again, `dumps` writes one line that is not
-- empty, and the lines of a text are the lines that it was made of.
pub record Laws (json : Json) (aiter_lines : Text → List Text) : Type 0 where
  pub loads-dumps : (v : json.Value) → json.loads (json.dumps v) ≡ some v
  pub dumps-IsLine : (v : json.Value) → IsLine (json.dumps v)
  pub dumps_full : (v : json.Value) → is_empty (json.dumps v) ≡ false
  pub lines_kept : (ls : List Text) → All IsLine ls → aiter_lines (lines_text json ls) ≡ ls
  pub delta_dict : (t : Text) → json.is_dict (json.delta t) ≡ true
  pub done_dict : (i t : Text) (tools : List Text) → json.is_dict (json.done i t tools) ≡ true
  pub failure_dict : (t : Text) → json.is_dict (json.failure t) ≡ true

module _ (json : Json) (aiter_lines : Text → List Text) (laws : Laws json aiter_lines) where
  -- A frame whose name is a line without space round it, and whose data is a dict.
  abbrev pub IsFrame : Frame json → Type 0
  IsFrame (name, value) = IsLine name × (strip name ≡ name) × (json.is_dict value ≡ true)

  parse_dumped : (v : json.Value) → json.is_dict v ≡ true → parse_data json (json.dumps v ∷ []) ≡ v
  unfolding parse_data join
  parse_dumped v dict = rw (laws.dumps_full v, laws.loads-dumps v, dict) refl

  iter_sse-frame :
      (name : Text) (v : json.Value) (rest : List Text)
      → IsFrame (name, v)
      → iter_sse json (frame_lines json (name, v) ++ rest) (none, [])
        ≡ (name, v) ∷ iter_sse json rest (none, [])
  unfolding iter_sse frame_lines read_line cut strip lstrip rstrip is_space starts_with
  iter_sse-frame name v rest (line, tight, dict) =
      let same : (strip name, parse_data json (json.dumps v ∷ [])) ≡ (name, v) =
        rw (tight, parse_dumped v dict) refl in
      ap (λ (p : Frame json). p ∷ iter_sse json rest (none, [])) same

  iter_sse-all_lines :
      (fs : List (Frame json)) → All IsFrame fs → iter_sse json (all_lines json fs) (none, []) ≡ fs
  unfolding iter_sse
  iter_sse-all_lines [] h = refl
  iter_sse-all_lines ((name, v) ∷ fs) h =
      iter_sse-frame name v (all_lines json fs) h.0
      ∙ ap (λ rest. (name, v) ∷ rest) (iter_sse-all_lines fs h.1)

  all_lines-IsLine : (fs : List (Frame json)) → All IsFrame fs → All IsLine (all_lines json fs)
  unfolding frame_lines
  all_lines-IsLine [] h = tt
  all_lines-IsLine ((name, v) ∷ fs) h =
      (h.0.0, (laws.dumps-IsLine v, (refl, all_lines-IsLine fs h.1)))

  frames-IsFrame :
      (turn_id : Text) (chunks : List Text) (e : Ending)
      → All IsFrame (frames json turn_id chunks e)
  unfolding frames ending strip lstrip rstrip is_space
  frames-IsFrame turn_id [] (finished text tools) =
      ((refl, refl, laws.done_dict turn_id text tools), tt)
  frames-IsFrame turn_id [] (raised message) = ((refl, refl, laws.failure_dict message), tt)
  frames-IsFrame turn_id (chunk ∷ chunks) e =
      ((refl, refl, laws.delta_dict chunk), frames-IsFrame turn_id chunks e)

  -- What core writes for a turn is what channels reads back: the frames of the stream, split into
  -- lines and parsed, are the deltas of the turn in their order and then its one end, each with the
  -- data it was sent with, for every turn, whatever its chunks and however it ended.
  pub iter_sse-sse :
      (turn_id : Text) (chunks : List Text) (e : Ending)
      → iter_sse json (aiter_lines (sse json (frames json turn_id chunks e))) (none, [])
        ≡ frames json turn_id chunks e
  unfolding sse
  iter_sse-sse turn_id chunks e =
      let fs : List (Frame json) = frames json turn_id chunks e in
      let good = frames-IsFrame turn_id chunks e in
      ap (λ ls. iter_sse json ls (none, []))
        (laws.lines_kept (all_lines json fs) (all_lines-IsLine fs good))
      ∙ iter_sse-all_lines fs good
