-- ===== src/Netblock/Policy.antt =====
-- The host of a URL, and the block list, of shared/joshua_shared/netblock.py.
use joshua_ai.Base.{
  ℕ, ◌-◌, ◌*◌, ◌/◌, ◌%◌, ◌^◌, Bool, true, false, not, ◌&&◌, ◌||◌, Option, some, none, List, [], ◌∷◌,
  ◌++◌, ◌==◌, ℕ_eq, List_eq, leb, ltb, is_empty, elem, if◌then◌else◌, any, all, drop,
}
use joshua_ai.Base.Text.{Text, codes, strip, rstrip, lower, split, starts_with, ends_with, contains}
use joshua_ai.Netblock.{
  Address, ipv4, ipv6, Network, SplitUrl, Python, allowed_schemes, Reason, no_url, cannot_read,
  ambiguous, has_user, has_percent, bad_port, no_host, bad_address, bad_name, bad_scheme, covered,
  resolves_into, Read, unreadable, host_and_address, is_ambiguous, ends_in_number, whatwg_ipv4,
}

-- `_HOST_NAME`
abbrev pub is_name_char : ℕ → Bool
is_name_char c = (leb b'a' c && leb c b'z') || (leb b'0' c && leb c b'9') || c == b'_' || c == b'-'

abbrev pub is_host_name : Text → Bool
is_host_name host = all (λ part. not (is_empty part) && all is_name_char part) (split b'.' host)

module _ (py : Python) where
  -- The host outside brackets, after IDNA, in lower case and without its final dots.
  unfoldable pub named_host : Text → Read
  named_host raw_host = elim (py.idna raw_host) [
    | none ↦ unreadable bad_name
    | some folded ↦
        let host = rstrip (λ c. c == b'.') (lower folded) in
        let name = if is_host_name host then host_and_address host none else unreadable bad_name in
        if is_empty host
        then unreadable no_host
        else if ends_in_number host
        then (elim (whatwg_ipv4 py.int_of host) [
          | none ↦ unreadable bad_address
          | some value ↦ host_and_address (py.text_of (ipv4 value)) (some (ipv4 value))
        ])
        else name
  ]

  unfoldable pub bracketed_host : Text → Read
  bracketed_host raw_host = elim (py.ipv6_address raw_host) [
    | none ↦ unreadable bad_address
    | some value ↦ host_and_address (lower raw_host) (some (ipv6 value))
  ]

  unfoldable pub split_host : SplitUrl → Read
  split_host parts =
      if contains (codes "@") parts.netloc
      then unreadable has_user
      else if contains (codes "%") parts.netloc
      then unreadable has_percent
      else if not parts.has_port
      then unreadable bad_port
      else if is_empty parts.hostname
      then unreadable no_host
      else if starts_with (codes "[") parts.netloc
      then bracketed_host parts.hostname
      else named_host parts.hostname

  unfoldable pub host_of : Text → Read
  host_of url =
      let read : Read = elim (py.urlsplit url) [
        | none ↦ unreadable cannot_read
        | some parts ↦ split_host parts
      ] in
      if any is_ambiguous url then unreadable ambiguous else read

  -- `_network`
  unfoldable pub network : Text → Option Network
  network entry =
      let e = lower (strip entry) in if contains (codes "/") e then py.ip_network e else none

-- The IPv4 address that an IPv6 address carries: mapped, 6to4, NAT64 and the deprecated form.
unfoldable pub carried : ℕ → List Address
carried value =
    if value / 2 ^ 32 == 0xffff
    then ipv4 (value % 2 ^ 32) ∷ []
    else if value / 2 ^ 112 == 0x2002
    then ipv4 (value / 2 ^ 80 % 2 ^ 32) ∷ []
    else if value / 2 ^ 32 == 0x64ff9b * 2 ^ 64
    then ipv4 (value % 2 ^ 32) ∷ []
    else if value / 2 ^ 32 == 0 && ltb 1 value
    then ipv4 value ∷ []
    else []

abbrev pub embedded : Address → List Address
embedded (ipv4 value) = ipv4 value ∷ []
embedded (ipv6 value) = ipv6 value ∷ carried value

-- `a.version == network.version and a in network`
abbrev pub inside : Network → Address → Bool
inside n (ipv4 value) = not n.is_v6 && value / 2 ^ (32 - n.prefix) == n.base / 2 ^ (32 - n.prefix)
inside n (ipv6 value) = n.is_v6 && value / 2 ^ (128 - n.prefix) == n.base / 2 ^ (128 - n.prefix)

abbrev pub in_network : List Address → Network → Bool
in_network addresses n = any (inside n) addresses

-- The same for the network that an entry names, if it names one.
abbrev pub in_named : List Address → Option Network → Bool
in_named addresses none = false
in_named addresses (some n) = in_network addresses n

abbrev pub is_under : Text → Text → Bool
is_under domain host = host == domain || ends_with (b'.' ∷ domain) host

abbrev pub same_address : Address → Address → Bool
same_address (ipv4 a) (ipv4 b) = a == b
same_address (ipv6 a) (ipv6 b) = a == b
same_address _ _ = false

module _ (py : Python) where
  -- An entry that holds neither a wildcard nor a slash and does not start with a dot.
  unfoldable pub matches_plain : Text → Text → Text → List Address → Bool
  matches_plain e url host addresses =
      let word = contains e (lower url) || contains e host in
      let domain =
        if is_under e host then true else if contains (codes ".") e then false else word in
      elim (py.ip_address e) [ some literal ↦ any (same_address literal) addresses | none ↦ domain ]

  unfoldable pub matches_entry : Text → Text → Text → List Address → Bool
  matches_entry e url host addresses =
      let pattern =
        if starts_with (codes "*.") e && (host == drop 2 e || ends_with (drop 1 e) host)
        then true
        else py.fnmatch host e in
      let cidr : Bool = elim (network py e) [
        | none ↦ contains e (lower url)
        | some n ↦ in_network addresses n
      ] in
      if is_empty e
      then false
      else if contains (codes "*") e || contains (codes "?") e
      then pattern
      else if contains (codes "/") e
      then cidr
      else if starts_with (codes ".") e
      then host == drop 1 e || ends_with e host
      else matches_plain e url host addresses

  -- `_matches`
  abbrev pub matches : Text → Text → Text → List Address → Bool
  matches entry url host addresses = matches_entry (lower (strip entry)) url host addresses

  abbrev pub addresses_of : Option Address → List Address
  addresses_of none = []
  addresses_of (some address) = embedded address

  -- The first entry that covers the URL.
  unfoldable pub first_covering : Text → Text → List Address → List Text → Option Text
  first_covering url host addresses [] = none
  first_covering url host addresses (entry ∷ blocked) =
      let rest = first_covering url host addresses blocked in
      if matches entry url host addresses then some entry else rest

  -- The first entry with a network that one of the addresses lies in.
  unfoldable pub first_network : List Address → List Text → Option Text
  first_network found [] = none
  first_network found (entry ∷ blocked) =
      let rest = first_network found blocked in
      if in_named found (network py entry) then some entry else rest

  abbrev pub embedded_all : List Address → List Address
  embedded_all [] = []
  embedded_all (a ∷ found) = embedded a ++ embedded_all found

  unfoldable pub resolved_reason : Text → Option Address → List Text → Bool → Option Reason
  resolved_reason host (some address) blocked resolve = none
  resolved_reason host none blocked resolve =
      let inside_one : Option Reason =
        elim (first_network (embedded_all (py.getaddrinfo host)) blocked) [
          | none ↦ none
          | some entry ↦ some (resolves_into entry)
        ] in
      if resolve then inside_one else none

  unfoldable pub list_reason : Text → List Text → Bool → Read → Option Reason
  list_reason raw blocked resolve (unreadable reason) = some reason
  list_reason raw blocked resolve (host_and_address host address) =
      elim (first_covering raw host (addresses_of address) blocked) [
        | some entry ↦ some (covered entry)
        | none ↦ resolved_reason host address blocked resolve
      ]

  unfoldable pub split_reason : Text → List Text → Bool → Option SplitUrl → Option Reason
  split_reason raw blocked resolve none = some cannot_read
  split_reason raw blocked resolve (some parts) =
      let listed = list_reason raw blocked resolve (host_of py raw) in
      if elem (lower parts.scheme) allowed_schemes
      then listed
      else some (bad_scheme (lower parts.scheme))

  unfoldable pub block_reason : Text → List Text → Bool → Option Reason
  block_reason url blocked resolve =
      let raw = strip url in
      let judged = split_reason raw blocked resolve (py.urlsplit raw) in
      if is_empty raw then some no_url else judged
