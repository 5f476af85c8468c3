-- ===== src/Netblock/Permits.antt =====
-- What it takes for `block_reason` to let a URL through.
use joshua_ai.Base.{
  Bool, true, false, Option, some, none, List, [], ◌∷◌, ◌≡◌, refl, arith, All, elem, List_eq, ℕ_eq,
  Option-cases, inl, inr, is_empty, if_cases, ◌<◌, ◌≢◌, ◌⊎◌, any, Bool-cases, eq_of_beq, All-imp,
  sym, ap, ◌∙◌, ◌==◌,
}
use joshua_ai.Base.Text.{Text, codes, is_space, strip, lower}
use joshua_ai.Netblock.{
  Address, SplitUrl, Python, no_url, bad_scheme, Read, unreadable, host_and_address,
  allowed_schemes, is_ambiguous, Network,
}
use joshua_ai.Netblock.Policy.{
  host_of, network, matches, addresses_of, first_covering, first_network, embedded_all,
  resolved_reason, list_reason, split_reason, in_named, block_reason, split_host, embedded,
}
use joshua_ai.Netblock.Hosts.{HostIs, host_of-HostIs}
use joshua_ai.Netblock.Clear.{Clear, embedded_all-Clear, contains-elem}
use joshua_ai.Netblock.Entries.{
  Names, Apart, Differs, Elsewhere, Names-network, matches_entry-Apart, matches_entry-Differs,
  matches_entry-Elsewhere,
}

module _ (py : Python) where
  abbrev pub Uncovered : Text → Text → List Address → List Text → Type 0
  Uncovered url host addresses blocked =
      All (λ entry. matches py entry url host addresses ≡ false) blocked

  abbrev pub Outside : List Address → List Text → Type 0
  Outside found blocked = All (λ entry. in_named found (network py entry) ≡ false) blocked

  -- The entry keeps the host and its address, if it is one, apart from what the entry is for.
  abbrev pub Spares : Text → Option Address → Text → Type 0
  Spares host none entry = Elsewhere py (lower (strip entry)) host
  Spares host (some a) entry =
      Elsewhere py (lower (strip entry)) host
      × Apart py (lower (strip entry)) a
      × Differs py (lower (strip entry)) a

  -- No address that the name resolves to stands for one in the network that the entry names.
  abbrev pub ResolvesOutside : Text → Text → Type 0
  ResolvesOutside host entry =
      (n : Network) → Names py entry n → All (Clear n) (py.getaddrinfo host)

  -- The URL has no character that a parser may read in its own way, `http` or `https` as its scheme,
  -- and a host without a user and without an escape. No entry covers it: not the domain of its host,
  -- not one above that, not the address of its host, not a network that this address, or an IPv4
  -- address that it carries, lies in. With `resolve` the addresses of a name are outside of every
  -- network of the list, those that they carry included.
  abbrev pub Permitted : Text → List Text → Bool → Type 0
  Permitted raw blocked resolve =
      (parts : SplitUrl) × (host : Text) × (address : Option Address) × (py.urlsplit raw
        ≡ some parts)
      × All (λ c. (31 < c) × (c ≢ 127) × (c ≢ b'\\') × (is_space c ≡ false)) raw
      × ((lower parts.scheme ≡ codes "http") ⊎ (lower parts.scheme ≡ codes "https"))
      × (elem b'@' parts.netloc ≡ false)
      × (elem b'%' parts.netloc ≡ false)
      × HostIs py parts host address
      × Uncovered raw host (addresses_of py address) blocked
      × All (Spares host address) blocked
      × (resolve ≡ true → address ≡ none → All (ResolvesOutside host) blocked)

  plain_text :
      (raw : Text)
      → any is_ambiguous raw ≡ false
      → All (λ c. (31 < c) × (c ≢ 127) × (c ≢ b'\\') × (is_space c ≡ false)) raw
  plain_text [] h = tt
  plain_text (c ∷ raw) h = (
    (
      ground (arith, h),
      λ same. ground (arith, h, same),
      λ same. ground (arith, h, same),
      ground (arith, h),
    ),
    plain_text raw (ground (arith, h)),
  )

  allowed_scheme :
      (scheme : Text)
      → elem scheme allowed_schemes ≡ true
      → (scheme ≡ codes "http") ⊎ (scheme ≡ codes "https")
  allowed_scheme scheme h = elim (Bool-cases (scheme == codes "http")) [
    | inl same ↦ inl (eq_of_beq scheme (codes "http") same)
    | inr other ↦ inr (eq_of_beq scheme (codes "https") (ground (arith, h, other)))
  ]

  readable :
      (raw : Text) (parts : SplitUrl) (host : Text) (address : Option Address)
      → py.urlsplit raw ≡ some parts
      → host_of py raw ≡ host_and_address host address
      → (any is_ambiguous raw ≡ false)
        × (elem b'@' parts.netloc ≡ false)
        × (elem b'%' parts.netloc ≡ false)
  unfolding host_of split_host
  readable raw parts host address split read =
      let user = contains-elem b'@' parts.netloc in
      let escape = contains-elem b'%' parts.netloc in
      (
        ground (arith, split, read),
        ground (arith, split, read, user),
        ground (arith, split, read, user, escape),
      )

  matches-Spares :
      (url host entry : Text) (address : Option Address)
      → matches py entry url host (addresses_of py address) ≡ false
      → Spares host address entry
  matches-Spares url host entry none free =
      matches_entry-Elsewhere py (lower (strip entry)) url host [] free
  matches-Spares url host entry (some a) free = (
    matches_entry-Elsewhere py (lower (strip entry)) url host (embedded a) free,
    matches_entry-Apart py (lower (strip entry)) url host a free,
    matches_entry-Differs py (lower (strip entry)) url host a free,
  )

  Outside-ResolvesOutside :
      (host : Text) (blocked : List Text)
      → Outside (embedded_all py (py.getaddrinfo host)) blocked
      → All (ResolvesOutside host) blocked
  Outside-ResolvesOutside host blocked out =
      All-imp blocked
        (λ entry free n names. embedded_all-Clear py n (py.getaddrinfo host) (
          sym
            (ap (in_named (embedded_all py (py.getaddrinfo host))) (Names-network py entry n names))
          ∙ free))
        out

  first_covering-Uncovered :
      (url host : Text) (addresses : List Address) (blocked : List Text)
      → first_covering py url host addresses blocked ≡ none
      → Uncovered url host addresses blocked
  unfolding first_covering
  first_covering-Uncovered url host addresses [] h = tt
  first_covering-Uncovered url host addresses (entry ∷ blocked) h =
      if_cases (λ o. o ≡ none → Uncovered url host addresses (entry ∷ blocked))
        (matches py entry url host addresses) (some entry)
        (first_covering py url host addresses blocked) (λ _ e. cc)
        (λ free e. (free, first_covering-Uncovered url host addresses blocked e)) h

  first_network-Outside :
      (found : List Address) (blocked : List Text)
      → first_network py found blocked ≡ none
      → Outside found blocked
  unfolding first_network
  first_network-Outside found [] h = tt
  first_network-Outside found (entry ∷ blocked) h =
      if_cases (λ o. o ≡ none → Outside found (entry ∷ blocked)) (in_named found (network py entry))
        (some entry) (first_network py found blocked) (λ _ e. cc)
        (λ free e. (free, first_network-Outside found blocked e)) h

  resolved-Outside :
      (host : Text) (address : Option Address) (blocked : List Text) (resolve : Bool)
      → resolved_reason py host address blocked resolve ≡ none
      → resolve ≡ true
      → address ≡ none
      → Outside (embedded_all py (py.getaddrinfo host)) blocked
  unfolding resolved_reason
  resolved-Outside host (some address) blocked resolve h on named = cc
  resolved-Outside host none blocked resolve h on named =
      first_network-Outside (embedded_all py (py.getaddrinfo host)) blocked (ground arith)

  listed-Permitted :
      (raw : Text) (blocked : List Text) (resolve : Bool) (parts : SplitUrl) (read : Read)
      → host_of py raw ≡ read
      → py.urlsplit raw ≡ some parts
      → elem (lower parts.scheme) allowed_schemes ≡ true
      → list_reason py raw blocked resolve read ≡ none
      → Permitted raw blocked resolve
  unfolding list_reason
  listed-Permitted raw blocked resolve parts (unreadable reason) e f scheme h = cc
  listed-Permitted raw blocked resolve parts (host_and_address host address) e f scheme h =
      elim (Option-cases (first_covering py raw host (addresses_of py address) blocked)) [
        | inl free ↦
            let (plain, no_user, no_escape) = readable raw parts host address f e in
            let uncovered =
              first_covering-Uncovered raw host (addresses_of py address) blocked free in
            (
              parts,
              host,
              address,
              f,
              plain_text raw plain,
              allowed_scheme (lower parts.scheme) scheme,
              no_user,
              no_escape,
              host_of-HostIs py raw parts host address f e,
              uncovered,
              All-imp blocked (λ entry. matches-Spares raw host entry address) uncovered,
              λ on named.
                  Outside-ResolvesOutside host blocked
                    (resolved-Outside host address blocked resolve (ground arith) on named),
            )
        | inr (entry, covers) ↦ absurd (ground arith)
      ]

  split-Permitted :
      (raw : Text) (blocked : List Text) (resolve : Bool) (o : Option SplitUrl)
      → py.urlsplit raw ≡ o
      → split_reason py raw blocked resolve o ≡ none
      → Permitted raw blocked resolve
  unfolding split_reason
  split-Permitted raw blocked resolve none e h = cc
  split-Permitted raw blocked resolve (some parts) e h =
      if_cases (λ r. r ≡ none → Permitted raw blocked resolve)
        (elem (lower parts.scheme) allowed_schemes)
        (list_reason py raw blocked resolve (host_of py raw))
        (some (bad_scheme (lower parts.scheme)))
        (λ scheme listed.
          listed-Permitted raw blocked resolve parts (host_of py raw) refl e scheme listed)
        (λ _ bad. cc) h

  -- A URL that `block_reason` gives no reason against is http or https, is plain text without a user
  -- or an escape in its host, and is apart from every entry of the list: its host is no listed domain
  -- and below none, its address, and an IPv4 address that it carries, is none listed and in no listed
  -- network, and with `resolve` so are the addresses that a name resolves to with the networks.
  pub block_reason-Permitted :
      (url : Text) (blocked : List Text) (resolve : Bool)
      → block_reason py url blocked resolve ≡ none
      → Permitted (strip url) blocked resolve
  unfolding block_reason
  block_reason-Permitted url blocked resolve h =
      if_cases (λ r. r ≡ none → Permitted (strip url) blocked resolve) (is_empty (strip url))
        (some no_url) (split_reason py (strip url) blocked resolve (py.urlsplit (strip url)))
        (λ _ bad. cc)
        (λ _ judged.
          split-Permitted (strip url) blocked resolve (py.urlsplit (strip url)) refl judged)
        h
