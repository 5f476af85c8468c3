-- ===== src/Delivery/Tests.antt =====
-- Delivery on small scripts, and each theorem at an input.
use joshua_ai.Base.{zero, suc, true, false, some, ◌≡◌, refl}
use joshua_ai.Base.Text.{codes}
use joshua_ai.Delivery.{
  status, connect_error, other_error, Script, returned, raised, is_retryable, attempts_from,
  request, verdict, deliver_from, deliver, is_ignore, voice_delivery_target,
}
use joshua_ai.Delivery.Retry.{Attempts, deliver-Attempts}

program : Unit {0}
unfolding is_retryable attempts_from request verdict deliver_from deliver is_ignore
    voice_delivery_target
program = tt

-- A server error, then a lost connection, then success.
abbrev flaky : Script
flaky zero = status 503
flaky (suc zero) = connect_error
flaky (suc (suc n)) = status 200

flaky_delivers : deliver false flaky 0 ≡ (returned true, 3)
unfolding program
flaky_delivers = refl

timeout_escapes : deliver false (λ n. other_error) 0 ≡ (raised other_error, 1)
unfolding program
timeout_escapes = refl

ignored : is_ignore (codes " [IGNORE]\n") ≡ true
unfolding program
ignored = refl

rerouted :
    voice_delivery_target "voice"
      (some (codes "alex"))
      (codes "voice:kitchen")
      (some (record { deliver_via = some (codes "telegram") }))
    ≡ some (codes "telegram:dm:alex")
unfolding program
rerouted = refl

deliver-Attempts_example : Attempts flaky 3 0 (deliver false flaky 0).0
deliver-Attempts_example = deliver-Attempts flaky 0
