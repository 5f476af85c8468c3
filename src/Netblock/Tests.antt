-- ===== src/Netblock/Tests.antt =====
-- A parser that reads `scheme://host` only, and each theorem at an input.
use joshua_ai.Base.{
  ℕ, ◌+◌, ◌*◌, ◌-◌, true, false, ◌&&◌, Option, some, none, List, [], ◌∷◌, ◌≡◌, refl, if◌then◌else◌,
  leb, drop, is_empty,
}
use joshua_ai.Base.Text.{
  Text, codes, is_space, lstrip, strip, rstrip, lower, to_lower, split, cut, starts_with, ends_with,
  contains,
}
use joshua_ai.Netblock.{
  ipv4, Network, Python, covered, resolves_into, has_hex_prefix, parse_number, ends_in_number,
  parse_numbers, ipv4_value, whatwg_ipv4,
}
use joshua_ai.Netblock.Policy.{
  named_host, bracketed_host, split_host, host_of, network, carried, matches_plain, matches_entry,
  first_covering, first_network, resolved_reason, list_reason, split_reason, block_reason,
}
use joshua_ai.Netblock.Permits.{Permitted, block_reason-Permitted}

program : Unit {0}
unfolding is_space lstrip strip rstrip lower to_lower split cut starts_with ends_with contains
    has_hex_prefix parse_number ends_in_number parse_numbers ipv4_value whatwg_ipv4 named_host
    bracketed_host split_host host_of network carried matches_plain matches_entry first_covering
    first_network resolved_reason list_reason split_reason block_reason
program = tt

abbrev digits : ℕ → Text → Option ℕ
digits value [] = some value
digits value (c ∷ s) =
    let rest = digits (value * 10 + (c - 48)) s in if leb 48 c && leb c 57 then rest else none

abbrev loopback : Network
loopback = record { is_v6 = false; base = 0x7f000000; prefix = 8 }

abbrev slashes : Text → Text
slashes s = drop 2 s

abbrev python : Python
python = record {
  urlsplit = λ url. elim (cut b':' url) [
    | none ↦ none
    | some (scheme, rest) ↦
        some record {
          scheme = scheme;
          netloc = slashes rest;
          hostname = slashes rest;
          has_port = true;
        }
  ];
  idna = λ host. some host;
  ipv6_address = λ host. none;
  ip_address = λ entry. none;
  ip_network = λ entry. if is_empty entry then none else some loopback;
  getaddrinfo = λ host. ipv4 0x7f000001 ∷ [];
  fnmatch = λ host pattern. false;
  text_of = λ address. codes "address";
  int_of = λ base part. digits 0 part;
}

abbrev list : List Text
list = codes "127.0.0.0/8" ∷ codes "example.net" ∷ []

short_form : whatwg_ipv4 python.int_of (codes "127.1") ≡ some 0x7f000001
unfolding program
short_form = refl

number_is_covered :
    block_reason python (codes "http://2130706433") list true ≡ some (covered (codes "127.0.0.0/8"))
unfolding program
number_is_covered = refl

name_resolves_inside :
    block_reason python (codes "http://hub.example") list true
    ≡ some (resolves_into (codes "127.0.0.0/8"))
unfolding program
name_resolves_inside = refl

without_resolving : block_reason python (codes " http://hub.example") list false ≡ none
unfolding program
without_resolving = refl

block_reason-Permitted_example : Permitted python (strip (codes " http://hub.example")) list false
block_reason-Permitted_example =
    block_reason-Permitted python (codes " http://hub.example") list false without_resolving
