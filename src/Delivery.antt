-- ===== src/Delivery.antt =====
-- Core's outbound path: `FleetClient._request` of shared/joshua_shared/http.py and
-- core/joshua_core/delivery.py. The network is a script, one outcome for each request in turn;
-- `Net` counts the requests made. Log lines and the backoff sleeps are left out.
pub mod Retry
mod Tests
use joshua_ai.Base.{
  ℕ, zero, suc, ◌+◌, String, Bool, true, false, ◌||◌, Option, none, some, List, [], ◌∷◌, ◌++◌, ◌==◌,
  String_eq, ℕ_eq, List_eq, if◌then◌else◌, ltb, is_empty,
}
use joshua_ai.Base.Text.{Text, codes, strip}
use text.Mathlib.Text.{◌==◌ as str_eq}

-- What one HTTP request comes to: a status, or an exception. `other_error` is any httpx exception
-- that is neither `ConnectError` nor `ConnectTimeout`, such as a read timeout.
pub data Outcome : Type 0 where
  status : ℕ → Outcome
  connect_error connect_timeout other_error : Outcome

-- The outcome of each request, by its number.
abbrev pub Script : Type 0
Script = ℕ → Outcome

abbrev pub max_attempts : ℕ
max_attempts = 3

-- `_RETRY_ERRORS`
unfoldable pub is_retryable : Outcome → Bool
is_retryable connect_error = true
is_retryable connect_timeout = true
is_retryable _ = false

-- `_request` with some attempts left, from request number `n`: the outcome that it returns or
-- raises, and the number of the next request.
unfoldable pub attempts_from : Script → ℕ → ℕ → Outcome × ℕ
attempts_from net zero n = (connect_error, n)
attempts_from net (suc zero) n = (net n, suc n)
attempts_from net (suc (suc left)) n =
    let rest = attempts_from net (suc left) (suc n) in
    if is_retryable (net n) then rest else (net n, suc n)

unfoldable pub request : Script → ℕ → Outcome × ℕ
request net n = attempts_from net max_attempts n

-- What `Deliverer.deliver` comes to: a returned flag, or the exception that it lets through.
pub data Delivery : Type 0 where
  returned : Bool → Delivery
  raised : Outcome → Delivery

-- The answer to one POST: final, or worth another attempt.
unfoldable pub verdict : Outcome → Option Delivery
verdict connect_error = some (returned false)
verdict connect_timeout = some (raised connect_timeout)
verdict other_error = some (raised other_error)
verdict (status code) =
    if code == 200
    then some (returned true)
    else if code == 404
    then some (returned false)
    else if ltb code 500
    then some (returned false)
    else none

-- The loop of `deliver` with some attempts left.
unfoldable pub deliver_from : Script → ℕ → ℕ → Delivery × ℕ
deliver_from net zero n = (returned false, n)
deliver_from net (suc left) n =
    let r = request net n in
    let rest = deliver_from net left r.1 in elim (verdict r.0) [ some d ↦ (d, r.1) | none ↦ rest ]

unfoldable pub deliver : Bool → Script → ℕ → Delivery × ℕ
deliver dry_run net n =
    let r = deliver_from net max_attempts n in if dry_run then (returned true, n) else r

-- `is_ignore`
abbrev pub ignore_marker : Text
ignore_marker = codes "[IGNORE]"

unfoldable pub is_ignore : Text → Bool
unfolding strip
is_ignore text = let stripped = strip text in is_empty stripped || stripped == ignore_marker

-- The part of `VoiceChannel` that delivery reads.
pub record VoiceChannel : Type 0 where
  pub deliver_via : Option Text

-- `voice_delivery_target`: where a reply goes once a voice conversation is handled.
unfoldable pub voice_delivery_target :
    String → Option Text → Text → Option VoiceChannel → Option Text
voice_delivery_target channel_type person_id target voice =
    if channel_type == "voice"
    then elim person_id [
      | none ↦ none
      | some person ↦ elim voice [
        | none ↦ none
        | some v ↦ elim v.deliver_via [
          | none ↦ none
          | some via ↦ some (via ++ (codes ":dm:" ++ person))
        ]
      ]
    ]
    else some target
