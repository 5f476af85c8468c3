-- ===== src/Netblock.antt =====
-- shared/joshua_shared/netblock.py: whether a URL may be fetched. Python's URL parser, IDNA, the
-- IPv6 and network parsers, the resolver and `fnmatch` are parameters (`Python`).
pub mod Numbers
pub mod Policy
pub mod Clear
pub mod Hosts
pub mod Entries
pub mod Permits
mod Tests
use joshua_ai.Base.{
  ℕ, zero, suc, ◌+◌, ◌-◌, ◌*◌, ◌/◌, ◌%◌, ◌^◌, Bool, true, false, not, ◌&&◌, ◌||◌, Option, some,
  none, List, [], ◌∷◌, ◌++◌, ◌==◌, ℕ_eq, List_eq, leb, ltb, is_empty, elem, if◌then◌else◌, keep_if,
  any, all, length, take, drop, map,
}
use joshua_ai.Base.Text.{
  Text, codes, is_space, strip, rstrip, lower, split, starts_with, ends_with, contains,
}

pub data Address : Type 0 where
  ipv4 ipv6 : ℕ → Address

-- A network: its version's constructor, the first address and the length of the prefix.
pub record Network : Type 0 where
  pub is_v6 : Bool
  pub base : ℕ
  pub prefix : ℕ

pub record SplitUrl : Type 0 where
  pub scheme : Text
  pub netloc : Text
  pub hostname : Text
  -- whether `.port` can be read
  pub has_port : Bool

pub record Python : Type 0 where
  -- `urlsplit`, none where it raises
  pub urlsplit : Text → Option SplitUrl
  -- `encode("idna")`, none where it raises
  pub idna : Text → Option Text
  pub ipv6_address : Text → Option ℕ
  pub ip_address : Text → Option Address
  pub ip_network : Text → Option Network
  -- `socket.getaddrinfo`, with each address that can be read
  pub getaddrinfo : Text → List Address
  pub fnmatch : Text → Text → Bool
  pub text_of : Address → Text
  -- `int` in a base, none where it raises or the number is negative
  pub int_of : ℕ → Text → Option ℕ

abbrev pub allowed_schemes : List Text
allowed_schemes = codes "http" ∷ codes "https" ∷ []

-- The reasons of `UnreadableUrl` and of `block_reason`.
pub data Reason : Type 0 where
  no_url cannot_read ambiguous has_user has_percent bad_port no_host bad_address bad_name : Reason
  bad_scheme covered resolves_into : Text → Reason

pub data Read : Type 0 where
  unreadable : Reason → Read
  host_and_address : Text → Option Address → Read

-- `_AMBIGUOUS`: a backslash, white space, a control character.
abbrev pub is_ambiguous : ℕ → Bool
is_ambiguous c = c == b'\\' || is_space c || leb c 31 || c == 127

-- A hexadecimal prefix.
unfoldable pub has_hex_prefix : Text → Bool
has_hex_prefix part = starts_with (codes "0x") part || starts_with (codes "0X") part

unfoldable pub parse_number : (ℕ → Text → Option ℕ) → Text → Option ℕ
parse_number int_of part =
    if has_hex_prefix part
    then (if is_empty (drop 2 part) then some 0 else int_of 16 (drop 2 part))
    else if ltb 1 (length part) && starts_with (codes "0") part
    then int_of 8 (drop 1 part)
    else int_of 10 part

-- `host.split(".")` without the empty part of a final dot.
abbrev pub drop_last_empty : List Text → List Text
drop_last_empty [] = []
drop_last_empty (p ∷ []) = if is_empty p then [] else p ∷ []
drop_last_empty (p ∷ q ∷ ps) = p ∷ drop_last_empty (q ∷ ps)

abbrev pub host_parts : Text → List Text
host_parts host = elim (split b'.' host) [ [] ↦ [] | p ∷ ps ↦ p ∷ drop_last_empty ps ]

abbrev pub last_part : List Text → Text
last_part [] = []
last_part (p ∷ []) = p
last_part (p ∷ q ∷ ps) = last_part (q ∷ ps)

abbrev pub is_digit : ℕ → Bool
is_digit c = leb b'0' c && leb c b'9'

abbrev pub is_hex : ℕ → Bool
is_hex c = is_digit c || (leb b'a' c && leb c b'f') || (leb b'A' c && leb c b'F')

unfoldable pub ends_in_number : Text → Bool
ends_in_number host =
    let last = last_part (host_parts host) in
    (not (is_empty last) && all is_digit last) || (has_hex_prefix last && all is_hex (drop 2 last))

unfoldable pub parse_numbers : (ℕ → Text → Option ℕ) → List Text → Option (List ℕ)
parse_numbers int_of [] = some []
parse_numbers int_of (p ∷ ps) = elim (parse_number int_of p) [
  | none ↦ none
  | some n ↦ elim (parse_numbers int_of ps) [ none ↦ none | some ns ↦ some (n ∷ ns) ]
]

-- The numbers but the last are bytes, the last fits the bytes that are left, and the value is
-- their sum, the first number being the highest byte of four.
unfoldable pub ipv4_value : ℕ → List ℕ → Option ℕ
ipv4_value left [] = none
ipv4_value left (n ∷ []) = if ltb n (256 ^ left) then some n else none
ipv4_value zero (n ∷ m ∷ ns) = none
ipv4_value (suc left) (n ∷ m ∷ ns) =
    let rest = ipv4_value left (m ∷ ns) in
    if ltb 255 n then none else elim rest [ none ↦ none | some v ↦ some (n * 256 ^ left + v) ]

unfoldable pub whatwg_ipv4 : (ℕ → Text → Option ℕ) → Text → Option ℕ
whatwg_ipv4 int_of host =
    let parts = host_parts host in
    let numbers = parse_numbers int_of parts in
    if ltb 4 (length parts) || any is_empty parts
    then none
    else elim numbers [ none ↦ none | some ns ↦ ipv4_value 4 ns ]
