-- ===== src/Netblock/Clear.antt =====
-- The addresses that a URL may lead to, and the networks of the list.
use native.Mathlib.Nat.{le-div_iff_mul-le}
use joshua_ai.Base.{
  ℕ, suc, ◌+◌, ◌-◌, ◌*◌, ◌/◌, ◌%◌, ◌^◌, ◌≤◌, ◌<◌, Bool, true, false, ◌||◌, List, [], ◌∷◌, ◌++◌, ◌≡◌,
  ◌≢◌, refl, sym, ◌∙◌, arith, All, elem, any, ℕ_eq,
}
use joshua_ai.Base.Text.{Text, contains, starts_with}
use joshua_ai.Netblock.{Address, ipv4, ipv6, Network, Python}
use joshua_ai.Netblock.Policy.{inside, in_network, carried, embedded, embedded_all}

-- An IPv6 address that carries an IPv4 address: mapped, 6to4, NAT64 and the deprecated form.
pub data Carries : ℕ → ℕ → Type 0 where
  mapped : (v : ℕ) → v < 2 ^ 32 → Carries (0xffff * 2 ^ 32 + v) v
  six_to_four :
      (v rest : ℕ) → v < 2 ^ 32 → rest < 2 ^ 80 → Carries (0x2002 * 2 ^ 112 + v * 2 ^ 80 + rest) v
  nat64 : (v : ℕ) → v < 2 ^ 32 → Carries (0x64ff9b * 2 ^ 96 + v) v
  compatible : (v : ℕ) → 1 < v → v < 2 ^ 32 → Carries v v

-- The address itself, or an IPv4 address that it carries.
pub data Stands : Address → Address → Type 0 where
  itself : (a : Address) → Stands a a
  carries : (v6 v4 : ℕ) → Carries v6 v4 → Stands (ipv6 v6) (ipv4 v4)

abbrev pub Within : ℕ → ℕ → ℕ → Type 0
Within high size v = (high * size ≤ v) × (v < high * size + size)

-- The address and the first one of the network share the bits of the prefix.
abbrev pub Lies : Network → Address → Type 0
Lies n (ipv4 v) =
    (n.is_v6 ≡ false)
    × ((high : ℕ) × Within high (2 ^ (32 - n.prefix)) v × Within high (2 ^ (32 - n.prefix)) n.base)
Lies n (ipv6 v) =
    (n.is_v6 ≡ true)
    × ((high : ℕ) × Within high (2 ^ (128 - n.prefix)) v
        × Within high (2 ^ (128 - n.prefix)) n.base)

-- Neither the address nor one that it carries lies in the network.
abbrev pub Clear : Network → Address → Type 0
Clear n a = (b : Address) → Stands a b → Lies n b → ⊥

div-Within : (high size v : ℕ) → Within high size v → v / size ≡ high
div-Within high size v (above, below) =
    let positive : 0 < size = omega (arith, above, below) in
    let lo : high ≤ v / size = (le-div_iff_mul-le positive).1 above in
    let hi : ¬ (suc high ≤ v / size) = λ h.
      let over : suc high * size ≤ v = (le-div_iff_mul-le positive).0 h in
      omega (arith, over, below) in
    omega (arith, lo, hi)

Lies-inside : (n : Network) (b : Address) → Lies n b → inside n b ≡ true
Lies-inside n (ipv4 v) (version, (high, at, base)) =
    let size = 2 ^ (32 - n.prefix) in
    ground (arith, version, div-Within high size v at, div-Within high size n.base base)
Lies-inside n (ipv6 v) (version, (high, at, base)) =
    let size = 2 ^ (128 - n.prefix) in
    ground (arith, version, div-Within high size v at, div-Within high size n.base base)

carried-lem : (v6 v4 : ℕ) → Carries v6 v4 → carried v6 ≡ ipv4 v4 ∷ []
unfolding carried
carried-lem _ v4 (mapped _ small) =
    let q : (0xffff * 2 ^ 32 + v4) / 2 ^ 32 ≡ 0xffff = omega arith in
    let m : (0xffff * 2 ^ 32 + v4) % 2 ^ 32 ≡ v4 = omega arith in ground (arith, q, m)
carried-lem _ v4 (six_to_four _ rest small low) =
    let v6 = 0x2002 * 2 ^ 112 + v4 * 2 ^ 80 + rest in
    let a : v6 / 2 ^ 32 ≢ 0xffff = λ h. omega (arith, h) in
    let q : v6 / 2 ^ 112 ≡ 0x2002 = omega arith in
    let m : v6 / 2 ^ 80 % 2 ^ 32 ≡ v4 = omega arith in ground (arith, a, q, m)
carried-lem _ v4 (nat64 _ small) =
    let v6 = 0x64ff9b * 2 ^ 96 + v4 in
    let a : v6 / 2 ^ 32 ≡ 0x64ff9b * 2 ^ 64 = omega arith in
    let b : v6 / 2 ^ 112 ≢ 0x2002 = λ h. omega (arith, h) in
    let m : v6 % 2 ^ 32 ≡ v4 = omega arith in ground (arith, a, b, m)
carried-lem _ v4 (compatible _ big small) =
    let a : v4 / 2 ^ 32 ≡ 0 = omega arith in
    let b : v4 / 2 ^ 112 ≡ 0 = omega arith in ground (arith, a, b, big)

-- A test that holds of an address for which `a` stands holds of one of the list for `a`.
pub embedded-any :
    (test : Address → Bool) (a b : Address)
    → Stands a b
    → test b ≡ true
    → any test (embedded a) ≡ true
embedded-any test (ipv4 v) _ (itself _) h = ground (arith, h)
embedded-any test (ipv6 v) _ (itself _) h = ground (arith, h)
embedded-any test _ _ (carries v6 v4 c) h = ground (arith, h, carried-lem v6 v4 c)

pub embedded-Clear : (n : Network) (a : Address) → in_network (embedded a) n ≡ false → Clear n a
embedded-Clear n a out b stands lies =
    let inside_one = embedded-any (inside n) a b stands (Lies-inside n b lies) in
    absurd (ground (arith, sym out ∙ inside_one))

any-append :
    {A : Type 0} (p : A → Bool) (xs ys : List A) → any p (xs ++ ys) ≡ (any p xs || any p ys)
any-append p [] ys = refl
any-append p (x ∷ xs) ys = ground (arith, any-append p xs ys)

left_out : (a b : Bool) → (a || b) ≡ false → a ≡ false
left_out a b h = ground arith

right_out : (a b : Bool) → (a || b) ≡ false → b ≡ false
right_out a b h = ground arith

Clear-append :
    (n : Network) (ys : List Address) (a : Address)
    → in_network (embedded a ++ ys) n ≡ false
    → (in_network (embedded a) n ≡ false) × (in_network ys n ≡ false)
Clear-append n ys a out =
    let parts = sym (any-append (inside n) (embedded a) ys) ∙ out in
    (left_out _ _ parts, right_out _ _ parts)

pub embedded_all-Clear :
    (py : Python) (n : Network) (found : List Address)
    → in_network (embedded_all py found) n ≡ false
    → All (Clear n) found
embedded_all-Clear py n [] out = tt
embedded_all-Clear py n (a ∷ found) out =
    let (here, later) = Clear-append n (embedded_all py found) a out in
    (embedded-Clear n a here, embedded_all-Clear py n found later)

pub contains-elem : (c : ℕ) (s : Text) → contains (c ∷ []) s ≡ elem c s
unfolding contains starts_with
contains-elem c [] = refl
contains-elem c (d ∷ s) = ground (arith, contains-elem c s)
