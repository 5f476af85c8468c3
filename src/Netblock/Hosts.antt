-- ===== src/Netblock/Hosts.antt =====
-- The host that a URL names, as `host_of` reads it.
use joshua_ai.Base.{
  ℕ, if◌then◌else◌, true, false, Option, some, none, ◌≡◌, List_eq, ℕ_eq, Option-cases, inl, inr,
  is_empty, if_cases, any, subst, not, ◌==◌,
}
use joshua_ai.Base.Text.{Text, codes, rstrip, lower, starts_with, contains}
use joshua_ai.Netblock.{
  Address, ipv4, ipv6, ends_in_number, whatwg_ipv4, bad_address, bad_name, no_host, has_user,
  has_percent, bad_port, ambiguous, SplitUrl, Python, Read, unreadable, host_and_address,
  is_ambiguous,
}
use joshua_ai.Netblock.Policy.{host_of, split_host, bracketed_host, named_host, is_host_name}

module _ (py : Python) where
  -- The name that the resolver is asked for: after IDNA, in lower case, without its final dots.
  abbrev pub folded_name : Text → Text
  folded_name folded = rstrip (λ c. c == b'.') (lower folded)

  -- The host of a URL and its address, if it is one: an IPv6 address in brackets, a number in any of
  -- the forms that a fetch reads as an IPv4 address, or else a name.
  pub data HostIs (parts : SplitUrl) : Text → Option Address → Type 0 where
    bracketed :
        (v : ℕ)
        → starts_with (codes "[") parts.netloc ≡ true
        → py.ipv6_address parts.hostname ≡ some v
        → HostIs parts (lower parts.hostname) (some (ipv6 v))
    number :
        (folded : Text) (v : ℕ)
        → starts_with (codes "[") parts.netloc ≡ false
        → py.idna parts.hostname ≡ some folded
        → ends_in_number (folded_name folded) ≡ true
        → whatwg_ipv4 py.int_of (folded_name folded) ≡ some v
        → HostIs parts (py.text_of (ipv4 v)) (some (ipv4 v))
    name :
        (folded : Text)
        → starts_with (codes "[") parts.netloc ≡ false
        → py.idna parts.hostname ≡ some folded
        → ends_in_number (folded_name folded) ≡ false
        → is_empty (folded_name folded) ≡ false
        → HostIs parts (folded_name folded) none

  -- A reading that gives a host gives the one that stands there.
  abbrev Told : SplitUrl → Read → Type 0
  Told parts (unreadable reason) = Unit
  Told parts (host_and_address host address) = HostIs parts host address

  bracketed_host-Told :
      (parts : SplitUrl)
      → starts_with (codes "[") parts.netloc ≡ true
      → Told parts (bracketed_host py parts.hostname)
  unfolding bracketed_host
  bracketed_host-Told parts open_ = elim (Option-cases (py.ipv6_address parts.hostname)) [
    | inl bad ↦ rw (bad, bracketed_host) tt
    | inr (v, reads) ↦ rw (reads, bracketed_host) (bracketed v open_ reads)
  ]

  named_host-Told :
      (parts : SplitUrl)
      → starts_with (codes "[") parts.netloc ≡ false
      → Told parts (named_host py parts.hostname)
  unfolding named_host
  named_host-Told parts closed = elim (Option-cases (py.idna parts.hostname)) [
    | inl bad ↦ rw (bad, named_host) tt
    | inr (folded, reads) ↦
        let host = folded_name folded in
        let numbered : Read = elim (whatwg_ipv4 py.int_of host) [
          | none ↦ unreadable bad_address
          | some value ↦ host_and_address (py.text_of (ipv4 value)) (some (ipv4 value))
        ] in
        let plain : Read =
          if is_host_name host then host_and_address host none else unreadable bad_name in
        rw (reads, named_host)
          (if_cases (Told parts) (is_empty host) (unreadable no_host)
            (if ends_in_number host then numbered else plain) (λ _. tt)
            (λ filled.
              if_cases (Told parts) (ends_in_number host) numbered plain
                (λ digits. elim (Option-cases (whatwg_ipv4 py.int_of host)) [
                  | inl bad ↦ rw bad tt
                  | inr (v, value) ↦ rw value (number folded v closed reads digits value)
                ])
                (λ letters.
                  if_cases (Told parts) (is_host_name host) (host_and_address host none)
                    (unreadable bad_name) (λ _. name folded closed reads letters filled)
                    (λ _. tt))))
  ]

  split_host-Told : (parts : SplitUrl) → Told parts (split_host py parts)
  unfolding split_host
  split_host-Told parts =
      let any_host =
        if_cases (Told parts) (starts_with (codes "[") parts.netloc) _ _ (bracketed_host-Told parts)
          (named_host-Told parts) in
      if_cases (Told parts) (contains (codes "@") parts.netloc) (unreadable has_user) _ (λ _. tt)
        (λ _.
          if_cases (Told parts) (contains (codes "%") parts.netloc) (unreadable has_percent) _
            (λ _. tt)
            (λ _.
              if_cases (Told parts) (not parts.has_port) (unreadable bad_port) _ (λ _. tt)
                (λ _.
                  if_cases (Told parts) (is_empty parts.hostname) (unreadable no_host) _ (λ _. tt)
                    (λ _. any_host))))

  pub host_of-HostIs :
      (raw : Text) (parts : SplitUrl) (host : Text) (address : Option Address)
      → py.urlsplit raw ≡ some parts
      → host_of py raw ≡ host_and_address host address
      → HostIs parts host address
  unfolding host_of
  host_of-HostIs raw parts host address split read =
      let told : Told parts (host_of py raw) =
        rw (split, host_of)
          (if_cases (Told parts) (any is_ambiguous raw) (unreadable ambiguous) (split_host py parts)
            (λ _. tt) (λ _. split_host-Told parts)) in
      subst (Told parts) read told
