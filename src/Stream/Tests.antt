-- ===== src/Stream/Tests.antt =====
-- The round trip over a small JSON, and the reader on lines that core does not write.
use joshua_ai.Base.{
  ℕ, Bool, true, false, Option, some, none, List, [], ◌∷◌, ◌++◌, ◌==◌, List_eq, ℕ_eq, All, is_empty,
  ◌≡◌, refl, ap, ◌∙◌, if◌then◌else◌, ◌+◌, arith, suc, zero,
}
use mathlib.Core.List.{append_assoc}
use joshua_ai.Base.Text.{
  cons_head, Text, codes, join, starts_with, strip, lstrip, rstrip, is_space, cut,
}
use joshua_ai.Stream.{
  Json, Ending, finished, ending, frames, frame_lines, sse, iter_sse, lines_text, parse_data,
  read_line,
}
use joshua_ai.Stream.RoundTrip.{IsLine, Laws, iter_sse-sse}

-- A JSON with dicts, which hold numbers, and one value that is none.
data Value : Type 0 where
  dict : List ℕ → Value
  null : Value

abbrev ones : ℕ → Text → Text
ones zero rest = rest
ones (suc n) rest = b'1' ∷ ones n rest

abbrev numbers : List ℕ → Text
numbers [] = b'}' ∷ []
numbers (n ∷ ns) = ones n (b',' ∷ numbers ns)

abbrev dumped : Value → Text
dumped (dict ns) = b'{' ∷ numbers ns
dumped null = codes "null"

abbrev read_numbers : ℕ → Text → Option (List ℕ)
read_numbers k [] = none
read_numbers k (c ∷ s) =
    let more = read_numbers (suc k) s in
    let next = read_numbers 0 s in
    if c == b'1'
    then more
    else if c == b','
    then elim next [ none ↦ none | some ns ↦ some (k ∷ ns) ]
    else some []

abbrev loaded : Text → Option Value
loaded [] = none
loaded (c ∷ s) =
    if c == b'{'
    then elim (read_numbers 0 s) [ none ↦ none | some ns ↦ some (dict ns) ]
    else if c == b'n'
    then some null
    else none

abbrev is_dict : Value → Bool
is_dict (dict ns) = true
is_dict null = false

abbrev json : Json
json = record {
  Value = Value;
  dumps = dumped;
  loads = loaded;
  is_dict = is_dict;
  empty_dict = dict [];
  text_dict = λ t. dict (3 ∷ t);
  value_dict = λ v. dict (4 ∷ []);
  delta = λ t. dict (0 ∷ t);
  done = λ i t tools. dict (1 ∷ i ++ t);
  failure = λ t. dict (2 ∷ t);
}

-- The lines of a text, without their ends.
abbrev lines : Text → List Text
lines [] = []
lines (c ∷ s) = let rest = lines s in if c == b'\n' then [] ∷ rest else cons_head c rest

lines-line_text : (l s : Text) → IsLine l → lines (l ++ b'\n' ∷ s) ≡ l ∷ lines s
lines-line_text [] s h = refl
lines-line_text (c ∷ l) s h =
    let both : (c == b'\n' ≡ false) × IsLine l = (ground arith, ground arith) in
    let more = both.0 in let deeper = lines-line_text l s both.1 in rw (more, deeper) refl

lines-lines_text : (ls : List Text) → All IsLine ls → lines (lines_text json ls) ≡ ls
lines-lines_text [] h = refl
lines-lines_text (l ∷ ls) h =
    ap lines (append_assoc l (b'\n' ∷ []) (lines_text json ls))
    ∙ lines-line_text l (lines_text json ls) h.0
    ∙ ap (λ rest. l ∷ rest) (lines-lines_text ls h.1)

read_numbers-ones :
    (n k : ℕ) (ns : List ℕ) (s : Text)
    → read_numbers 0 s ≡ some ns
    → read_numbers k (ones n (b',' ∷ s)) ≡ some ((n + k) ∷ ns)
read_numbers-ones zero k ns s h =
    let ended : read_numbers k (b',' ∷ s) ≡ some (k ∷ ns) = rw (h) refl in
    ended ∙ ap (λ m. some (m ∷ ns)) (omega arith)
read_numbers-ones (suc n) k ns s h =
    read_numbers-ones n (suc k) ns s h ∙ ap (λ m. some (m ∷ ns)) (omega arith)

read_numbers-numbers : (ns : List ℕ) → read_numbers 0 (numbers ns) ≡ some ns
read_numbers-numbers [] = refl
read_numbers-numbers (n ∷ ns) =
    read_numbers-ones n 0 ns (numbers ns) (read_numbers-numbers ns)
    ∙ ap (λ m. some (m ∷ ns)) (omega arith)

loads-dumps : (v : Value) → loaded (dumped v) ≡ some v
loads-dumps (dict ns) = rw (read_numbers-numbers ns) refl
loads-dumps null = refl

ones-IsLine : (n : ℕ) (s : Text) → IsLine s → IsLine (ones n s)
ones-IsLine zero s h = h
ones-IsLine (suc n) s h = ones-IsLine n s h

numbers-IsLine : (ns : List ℕ) → IsLine (numbers ns)
numbers-IsLine [] = refl
numbers-IsLine (n ∷ ns) = ones-IsLine n (b',' ∷ numbers ns) (numbers-IsLine ns)

dumps-IsLine : (v : Value) → IsLine (dumped v)
dumps-IsLine (dict ns) = numbers-IsLine ns
dumps-IsLine null = refl

dumps_full : (v : Value) → is_empty (dumped v) ≡ false
dumps_full (dict ns) = refl
dumps_full null = refl

json-Laws : Laws json lines
json-Laws = record {
  loads-dumps = loads-dumps;
  dumps-IsLine = dumps-IsLine;
  dumps_full = dumps_full;
  lines_kept = lines-lines_text;
  delta_dict = λ t. refl;
  done_dict = λ i t tools. refl;
  failure_dict = λ t. refl;
}

abbrev turn : Ending
turn = finished (codes "hi there") []

iter_sse-sse_example :
    iter_sse json
      (lines (sse json (frames json (codes "t-1") (codes "hi" ∷ codes " there" ∷ []) turn)))
      (none, [])
    ≡ frames json (codes "t-1") (codes "hi" ∷ codes " there" ∷ []) turn
iter_sse-sse_example =
    iter_sse-sse json lines json-Laws (codes "t-1") (codes "hi" ∷ codes " there" ∷ []) turn

program : Unit {0}
unfolding frames ending frame_lines sse iter_sse read_line parse_data join starts_with strip lstrip
    rstrip is_space cut
program = tt

-- A frame without a name is dropped, data over two lines is joined and data that is no dict wrapped.
read_back :
    iter_sse json
      (codes "data: x"
        ∷ []
        ∷ codes "event: a"
        ∷ codes "data: y"
        ∷ codes "data:z"
        ∷ codes ": ping"
        ∷ []
        ∷ codes "event:b "
        ∷ codes "data: null"
        ∷ [])
      (none, [])
    ≡ (codes "a", dict (3 ∷ codes "y" ++ b'\n' ∷ codes "z")) ∷ (codes "b", dict (4 ∷ [])) ∷ []
unfolding program
read_back = refl
