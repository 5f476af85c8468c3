-- ===== src/Netblock/Entries.antt =====
-- What an entry of the list keeps a URL from: a network, an address, a domain with all below it.
use mathlib.Core.List.{reverse, reverse-append}
use joshua_ai.Base.{
  ℕ, true, false, some, none, List, [], ◌∷◌, ◌++◌, ◌≡◌, ◌≢◌, refl, sym, ◌∙◌, ap, subst, arith, elem,
  any, ℕ_eq, List_eq, is_empty, ◌==◌, beq_self,
}
use joshua_ai.Base.Text.{Text, codes, strip, lower, starts_with, ends_with}
use joshua_ai.Netblock.{Address, ipv4, ipv6, Network, Python}
use joshua_ai.Netblock.Policy.{
  network, in_network, embedded, same_address, matches_plain, matches_entry, is_under,
}
use joshua_ai.Netblock.Clear.{Stands, Clear, embedded-any, embedded-Clear, contains-elem}

-- An entry without a wildcard.
abbrev pub NoWildcard : Text → Type 0
NoWildcard e = (elem b'*' e ≡ false) × (elem b'?' e ≡ false)

-- An entry that is no network, no wildcard and does not start with a dot.
abbrev pub IsPlain : Text → Type 0
IsPlain e =
    (is_empty e ≡ false)
    × NoWildcard e
    × (elem b'/' e ≡ false)
    × (starts_with (codes ".") e ≡ false)

starts_with-append : (p s : Text) → starts_with p (p ++ s) ≡ true
unfolding starts_with
starts_with-append [] s = refl
starts_with-append (c ∷ p) s = ground (arith, beq_self c, starts_with-append p s)

ends_with-append : (p s : Text) → ends_with p (s ++ p) ≡ true
unfolding ends_with
ends_with-append p s =
    ap (starts_with (reverse p)) (reverse-append s p) ∙ starts_with-append (reverse p) (reverse s)

elem-is_empty : (c : ℕ) (s : Text) → elem c s ≡ true → is_empty s ≡ false
elem-is_empty c [] h = ground (arith, h)
elem-is_empty c (d ∷ s) h = refl

module _ (py : Python) where
  -- An entry with a slash that the parser of networks reads.
  abbrev pub Names : Text → Network → Type 0
  Names e n = (elem b'/' (lower (strip e)) ≡ true) × (py.ip_network (lower (strip e)) ≡ some n)

  -- The address of a host, if it is one, stands for none in the network that the entry names.
  abbrev pub Apart : Text → Address → Type 0
  Apart e a = NoWildcard e → elem b'/' e ≡ true → (n : Network) → Names e n → Clear n a

  -- It stands for none that the entry is.
  abbrev pub Differs : Text → Address → Type 0
  Differs e a =
      IsPlain e
      → (literal : Address) → py.ip_address e ≡ some literal
      → (b : Address) → Stands a b
      → b ≢ literal

  -- The host is neither the domain that the entry is nor one below it.
  abbrev pub Elsewhere : Text → Text → Type 0
  Elsewhere e host =
      IsPlain e → py.ip_address e ≡ none → (host ≢ e) × ((below : Text) → host ≢ below ++ b'.' ∷ e)

  pub Names-network : (e : Text) (n : Network) → Names e n → network py e ≡ some n
  unfolding network
  Names-network e n (slash, reads) =
      ground (arith, contains-elem b'/' (lower (strip e)), slash, reads)

  matches_network :
      (e url host : Text) (addresses : List Address) (n : Network)
      → NoWildcard e
      → elem b'/' e ≡ true
      → network py e ≡ some n
      → matches_entry py e url host addresses ≡ in_network addresses n
  unfolding matches_entry
  matches_network e url host addresses n (star, mark) slash reads = ground (
    arith,
    elem-is_empty b'/' e slash,
    contains-elem b'*' e,
    contains-elem b'?' e,
    contains-elem b'/' e,
    star,
    mark,
    slash,
    reads,
  )

  pub matches_entry-Apart :
      (e url host : Text) (a : Address)
      → matches_entry py e url host (embedded a) ≡ false
      → Apart e a
  matches_entry-Apart e url host a free no_wildcard slash n names =
      let found =
        matches_network e url host (embedded a) n no_wildcard slash (Names-network e n names) in
      embedded-Clear n a (sym found ∙ free)

  matches_if_plain :
      (e url host : Text) (addresses : List Address)
      → IsPlain e
      → matches_entry py e url host addresses ≡ matches_plain py e url host addresses
  unfolding matches_entry
  matches_if_plain e url host addresses (filled, (star, mark), slash, dot) = ground (
    arith,
    filled,
    contains-elem b'*' e,
    contains-elem b'?' e,
    contains-elem b'/' e,
    star,
    mark,
    slash,
    dot,
  )

  same_address_self : (a : Address) → same_address a a ≡ true
  same_address_self (ipv4 v) = beq_self v
  same_address_self (ipv6 v) = beq_self v

  pub matches_entry-Differs :
      (e url host : Text) (a : Address)
      → matches_entry py e url host (embedded a) ≡ false
      → Differs e a
  unfolding matches_plain
  matches_entry-Differs e url host a free plain literal reads b stands same =
      let judged : matches_plain py e url host (embedded a)
          ≡ any (same_address literal) (embedded a) =
        rw (reads, matches_plain) refl in
      let itself : same_address literal b ≡ true =
        subst (λ c. same_address literal c ≡ true) (sym same) (same_address_self literal) in
      let found = embedded-any (same_address literal) a b stands itself in
      absurd
        (ground (arith, sym free ∙ matches_if_plain e url host (embedded a) plain ∙ judged ∙ found))

  pub matches_entry-Elsewhere :
      (e url host : Text) (addresses : List Address)
      → matches_entry py e url host addresses ≡ false
      → Elsewhere e host
  unfolding matches_plain
  matches_entry-Elsewhere e url host addresses free plain no_address =
      let judged : matches_plain py e url host addresses ≡ false =
        sym (matches_if_plain e url host addresses plain) ∙ free in
      let not_under : is_under e host ≡ false = ground (arith, no_address, judged) in
      (
        λ same.
            let self : (host == e) ≡ true = subst (λ h. (h == e) ≡ true) (sym same) (beq_self e) in
            absurd (ground (arith, self, not_under)),
        λ below same.
            let ends : ends_with (b'.' ∷ e) host ≡ true =
              subst (λ h. ends_with (b'.' ∷ e) h ≡ true) (sym same)
                (ends_with-append (b'.' ∷ e) below) in
            absurd (ground (arith, ends, not_under)),
      )
