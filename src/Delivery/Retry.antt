-- ===== src/Delivery/Retry.antt =====
-- How often core asks channels, and what the answers decide.
use mathlib.Core.Option.{some-injective}
use joshua_ai.Base.{
  ℕ, zero, suc, ◌+◌, ◌*◌, ◌≤◌, ◌<◌, Bool, true, false, none, some, ◌≡◌, ◌≢◌, ◌⊎◌, refl, inl, inr,
  arith, subst, sym, ◌==◌, ℕ_eq, eq_of_beq, if◌then◌else◌, Option-cases, Bool-cases,
}
use joshua_ai.Delivery.{
  Outcome, status, connect_error, connect_timeout, other_error, Script, Delivery, returned, raised,
  is_retryable, attempts_from, request, verdict, deliver_from, deliver,
}

attempts_from-le : (net : Script) (left n : ℕ) → (attempts_from net left n).1 ≤ n + left
unfolding attempts_from
attempts_from-le net zero n = omega arith
attempts_from-le net (suc zero) n = omega arith
attempts_from-le net (suc (suc left)) n = ground (arith, attempts_from-le net (suc left) (suc n))

request-le : (net : Script) (n : ℕ) → (request net n).1 ≤ n + 3
unfolding request
request-le net n = attempts_from-le net 3 n

deliver_from-le : (net : Script) (left n : ℕ) → (deliver_from net left n).1 ≤ n + left * 3
unfolding deliver_from
deliver_from-le net zero n = omega arith
deliver_from-le net (suc left) n =
    ground (arith, request-le net n, deliver_from-le net left (request net n).1)

-- One reply costs at most nine requests, three attempts of three connections each; a dry run none.
pub deliver-le :
    (dry_run : Bool) (net : Script) (n : ℕ)
    → (deliver dry_run net n).1 ≤ n + (if dry_run then 0 else 9)
unfolding deliver
deliver-le true net n = omega arith
deliver-le false net n = omega (arith, deliver_from-le net 3 n)

-- The answer to one attempt on up to so many connections, with the number of the next request. A
-- connection that is not made is tried again; the last request answers whatever it comes to.
pub data Answered (net : Script) : ℕ → ℕ → Outcome → ℕ → Type 0 where
  last_request : (n : ℕ) → Answered net 1 n (net n) (suc n)
  at_once :
      (left n : ℕ)
      → net n ≢ connect_error
      → net n ≢ connect_timeout
      → Answered net (suc left) n (net n) (suc n)
  no_connection :
      (left n m : ℕ) {o : Outcome}
      → (net n ≡ connect_error) ⊎ (net n ≡ connect_timeout)
      → Answered net left (suc n) o m
      → Answered net (suc left) n o m

-- What an answer decides: true for 200, false for another status below 500 and for a connection that
-- was refused, and an exception for the rest.
pub data Decides : Outcome → Delivery → Type 0 where
  taken : Decides (status 200) (returned true)
  turned_down : (code : ℕ) → code ≢ 200 → code < 500 → Decides (status code) (returned false)
  refused : Decides connect_error (returned false)
  timed_out : Decides connect_timeout (raised connect_timeout)
  broken : Decides other_error (raised other_error)

-- The attempts of one delivery: each but the last was answered by a server error.
pub data Attempts (net : Script) : ℕ → ℕ → Delivery → Type 0 where
  gives_up : (n : ℕ) → Attempts net zero n (returned false)
  settles :
      (left n m : ℕ) {o : Outcome} {d : Delivery}
      → Answered net 3 n o m
      → Decides o d
      → Attempts net (suc left) n d
  retries :
      (left n m code : ℕ) {d : Delivery}
      → Answered net 3 n (status code) m
      → 500 ≤ code
      → Attempts net left m d
      → Attempts net (suc left) n d

connection_cases :
    (o : Outcome)
    → ((is_retryable o ≡ true) × ((o ≡ connect_error) ⊎ (o ≡ connect_timeout)))
      ⊎ ((is_retryable o ≡ false) × (o ≢ connect_error) × (o ≢ connect_timeout))
unfolding is_retryable
connection_cases connect_error = inl (refl, inl refl)
connection_cases connect_timeout = inl (refl, inr refl)
connection_cases other_error = inr (refl, (λ e. cc), (λ e. cc))
connection_cases (status code) = inr (refl, (λ e. cc), (λ e. cc))

attempts_from-Answered :
    (net : Script) (left n : ℕ)
    → Answered net
        (suc left)
        n
        (attempts_from net (suc left) n).0
        (attempts_from net (suc left) n).1
unfolding attempts_from
attempts_from-Answered net zero n = last_request n
attempts_from-Answered net (suc left) n = elim (connection_cases (net n)) [
  | inl (again, why) ↦
      rw (again, attempts_from)
        (no_connection (suc left) n _ why (attempts_from-Answered net left (suc n)))
  | inr (settled, no_error, no_timeout) ↦
      rw (settled, attempts_from) (at_once (suc left) n no_error no_timeout)
]

request-Answered : (net : Script) (n : ℕ) → Answered net 3 n (request net n).0 (request net n).1
unfolding request
request-Answered net n = attempts_from-Answered net 2 n

-- Only a server error gets another attempt.
verdict-none : (o : Outcome) → verdict o ≡ none → (code : ℕ) × (o ≡ status code) × (500 ≤ code)
unfolding verdict
verdict-none (status code) h = (code, refl, ground arith)
verdict-none connect_error h = cc
verdict-none connect_timeout h = cc
verdict-none other_error h = cc

verdict-Decides : (o : Outcome) (d : Delivery) → verdict o ≡ some d → Decides o d
unfolding verdict
verdict-Decides connect_error d h =
    subst (Decides connect_error) (some-injective (returned false) d h) refused
verdict-Decides connect_timeout d h =
    subst (Decides connect_timeout) (some-injective (raised connect_timeout) d h) timed_out
verdict-Decides other_error d h =
    subst (Decides other_error) (some-injective (raised other_error) d h) broken
verdict-Decides (status code) d h = elim (Bool-cases (code == 200)) [
  | inl ok ↦
      let is_ok : code ≡ 200 = eq_of_beq code 200 ok in
      let told : returned true ≡ d = ground (arith, h, ok) in
      subst (λ c. Decides (status c) d) (sym is_ok) (subst (Decides (status 200)) told taken)
  | inr other ↦
      let differs : code ≢ 200 = λ e. ground (arith, e, other) in
      let low : code < 500 = ground (arith, h, other) in
      let told : returned false ≡ d = ground (arith, h, other) in
      subst (Decides (status code)) told (turned_down code differs low)
]

deliver_from-Attempts :
    (net : Script) (left n : ℕ) → Attempts net left n (deliver_from net left n).0
unfolding deliver_from
deliver_from-Attempts net zero n = gives_up n
deliver_from-Attempts net (suc left) n = elim (Option-cases (verdict (request net n).0)) [
  | inl more ↦
      let (code, e, big) = verdict-none (request net n).0 more in
      let m = (request net n).1 in
      rw (more, deliver_from)
        (retries left n m code (subst (λ o. Answered net 3 n o m) e (request-Answered net n)) big
          (deliver_from-Attempts net left m))
  | inr (d, final) ↦
      rw (final, deliver_from)
        (settles left n (request net n).1 (request-Answered net n)
          (verdict-Decides (request net n).0 d final))
]

-- A delivery makes up to three attempts of up to three connections each. An attempt is answered by
-- its first request that has a connection, or by its third; the delivery goes on only after a server
-- error, returns true for 200 and false for any other status below 500 and for a refused connection,
-- lets every other exception through, and returns false after three server errors.
pub deliver-Attempts : (net : Script) (n : ℕ) → Attempts net 3 n (deliver false net n).0
unfolding deliver
deliver-Attempts net n = deliver_from-Attempts net 3 n
