-- ===== src/Netblock/Numbers.antt =====
-- The IPv4 address that a host of numbers stands for.
use joshua_ai.Base.{
  ℕ, zero, suc, ◌+◌, ◌*◌, ◌^◌, ◌≤◌, ◌<◌, Option, some, none, List, [], ◌∷◌, ◌≡◌, refl, arith, ltb,
  length, if_cases, Option-cases, inl, inr, any, is_empty, ◌||◌,
}
use native.Mathlib.Nat.{pow-suc}
use joshua_ai.Base.Text.{Text}
use joshua_ai.Netblock.{host_parts, parse_number, parse_numbers, ipv4_value, whatwg_ipv4}

-- A number, if there is one, stays below a bound.
abbrev pub Below : ℕ → Option ℕ → Type 0
Below b none = Unit
Below b (some v) = v < b

ipv4_value-Below :
    (left : ℕ) (ns : List ℕ) → length ns ≤ left → Below (256 ^ left) (ipv4_value left ns)
unfolding ipv4_value
ipv4_value-Below left [] le = tt
ipv4_value-Below left (n ∷ []) le =
    if_cases (Below (256 ^ left)) (ltb n (256 ^ left)) (some n) none (λ h. ground arith) (λ _. tt)
ipv4_value-Below zero (n ∷ m ∷ ns) le = absurd (omega arith)
ipv4_value-Below (suc left) (n ∷ m ∷ ns) le =
    if_cases (Below (256 ^ suc left)) (ltb 255 n) none _ (λ _. tt)
      (λ byte.
        shifted (ipv4_value left (m ∷ ns)) (ground arith)
          (ipv4_value-Below left (m ∷ ns) (omega arith)))
  where
    shifted :
        (o : Option ℕ)
        → n ≤ 255
        → Below (256 ^ left) o
        → Below (256 ^ suc left) (elim o [ none ↦ none | some v ↦ some (n * 256 ^ left + v) ])
    shifted none byte h = tt
    shifted (some v) byte h = let power = pow-suc 256 left in grind arith

length-parse_numbers :
    (int_of : ℕ → Text → Option ℕ) (parts : List Text) (ns : List ℕ)
    → parse_numbers int_of parts ≡ some ns
    → length ns ≡ length parts
unfolding parse_numbers
length-parse_numbers int_of [] [] h = refl
length-parse_numbers int_of [] (n ∷ ns) h = absurd (ground arith)
length-parse_numbers int_of (p ∷ ps) ns h = elim (Option-cases (parse_number int_of p)) [
  | inl bad ↦ absurd (ground arith)
  | inr (n, good) ↦ elim (Option-cases (parse_numbers int_of ps)) [
    | inl bad ↦ absurd (ground arith)
    | inr (rest, goods) ↦
        let tail = length-parse_numbers int_of ps rest goods in
        let same : ns ≡ n ∷ rest = ground arith in rw (same, tail) refl
  ]
]

after-Below :
    (b : ℕ) (o : Option (List ℕ)) (f : List ℕ → Option ℕ)
    → ((ns : List ℕ) → o ≡ some ns → Below b (f ns))
    → Below b (elim o [ none ↦ none | some ns ↦ f ns ])
after-Below b none f below = tt
after-Below b (some ns) f below = below ns refl

-- A host of numbers, if it is read as an address, is read as a number below 2 ^ 32.
pub whatwg_ipv4-Below :
    (int_of : ℕ → Text → Option ℕ) (host : Text) → Below (2 ^ 32) (whatwg_ipv4 int_of host)
unfolding whatwg_ipv4
whatwg_ipv4-Below int_of host =
    if_cases (Below (2 ^ 32)) (ltb 4 (length (host_parts host)) || any is_empty (host_parts host))
      none _ (λ _. tt)
      (λ four.
        after-Below (2 ^ 32) (parse_numbers int_of (host_parts host)) (ipv4_value 4) (λ ns parsed.
          let size = length-parse_numbers int_of (host_parts host) ns parsed in
          ipv4_value-Below 4 ns (ground arith)))
