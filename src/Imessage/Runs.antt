-- ===== src/Imessage/Runs.antt =====
-- Sequences of events of a forwarder.
use joshua_ai.Base.{
  ℕ, ◌≤◌, Bool, false, List, [], ◌∷◌, ℕ_eq, List_eq, Pair_eq, is_empty, elem, length, if◌then◌else◌,
  if_cases, ◌≡◌, arith,
}
use joshua_ai.Base.Text.{Text}
use joshua_ai.Imessage.Normalize.{
  duplicate, InboundMessage, Normalized, rejected, inbound, normalize_message,
}
use joshua_ai.Imessage.Forwarder.{
  Puts, Source, Settings, Forwarder, Status, is_stale, seen, drop_message, take_in, submit_message,
  submit, Event, submitted, expired, flushed, worker_took, step, run, new_forwarder,
}
use joshua_ai.Imessage.Counts.{one, remembered}
use joshua_ai.Imessage.Places.{
  places, Grows-take_in, Grows-expire, Grows-flush_pending, Grows-take_next,
}
use joshua_ai.Imessage.Once.{Keeps, Within, Counted, Kept-step}

length-submit_message :
    (cfg : Settings) (now moment : ℕ) (source : Source) (m : InboundMessage) (f : Forwarder)
    → length f.puts ≤ length (submit_message cfg now moment source m f).1.puts
unfolding submit_message seen drop_message
length-submit_message cfg now moment source m f =
    let taken : Bool × Puts → Status × Forwarder = λ r.
      if r.0
      then drop_message duplicate (record f { puts = r.1 })
      else take_in cfg moment source m (record f { puts = r.1 }) in
    let put = record f { puts = (moment, m.message_guid) ∷ f.puts } in
    if_cases (λ (r : Status × Forwarder). length f.puts ≤ length r.1.puts)
      (is_stale cfg now m.date_created) _ _ (λ _. omega arith)
      (λ _.
        if_cases (λ (r : Bool × Puts). length f.puts ≤ length (taken r).1.puts)
          (is_empty m.message_guid) _ _ (λ _. (Grows-take_in cfg 0 [] moment source m f).2)
          (λ _.
            if_cases (λ (r : Bool × Puts). length f.puts ≤ length (taken r).1.puts)
              (cfg.cached f.puts moment m.message_guid) _ _ (λ _. omega arith)
              (λ _. omega (arith, Grows-take_in cfg 0 [] moment source m put))))

length-step :
    (cfg : Settings) (e : Event) (f : Forwarder) → length f.puts ≤ length (step cfg e f).puts
unfolding step submit drop_message
length-step cfg (submitted now moment source raw) f =
    let handled : Normalized → Status × Forwarder = λ n. elim n [
      | rejected why guid ↦ drop_message why f
      | inbound m ↦ submit_message cfg now moment source m f
    ] in
    elim (normalize_message cfg.py cfg.max_attachment_bytes raw)
      as (λ n. length f.puts ≤ length (handled n).1.puts) [
        | rejected why guid ↦ omega arith
        | inbound m ↦ length-submit_message cfg now moment source m f
      ]
length-step cfg (expired moment key) f =
    if_cases (λ (f' : Forwarder). length f.puts ≤ length f'.puts) (elem key f.timers) _ _
      (λ _. (Grows-expire cfg 0 [] moment key f).2) (λ _. omega arith)
length-step cfg (flushed moment) f = (Grows-flush_pending cfg 0 [] moment f).2
length-step cfg worker_took f = (Grows-take_next 0 [] f).2

length-run :
    (cfg : Settings) (es : List Event) (f : Forwarder) → length f.puts ≤ length (run cfg es f).puts
unfolding run
length-run cfg [] f = omega arith
length-run cfg (e ∷ es) f = omega (arith, length-step cfg e f, length-run cfg es (step cfg e f))

Within-head :
    (since span : ℕ) (e : Event) (es : List Event)
    → Within since span (e ∷ es)
    → Within since span (e ∷ [])
Within-head since span (submitted now moment source raw) es (late, early, _) = (late, early, tt)
Within-head since span (expired moment key) es w = tt
Within-head since span (flushed moment) es w = tt
Within-head since span worker_took es w = tt

Within-tail :
    (since span : ℕ) (e : Event) (es : List Event)
    → Within since span (e ∷ es)
    → Within since span es
Within-tail since span (submitted now moment source raw) es (_, _, w) = w
Within-tail since span (expired moment key) es w = w
Within-tail since span (flushed moment) es w = w
Within-tail since span worker_took es w = w

Counted-run :
    (since span maxsize : ℕ) (cfg : Settings) (g : Text) (es : List Event) (f : Forwarder)
    → Keeps cfg since span maxsize
    → (is_empty g ≡ false)
    → Within since span es
    → length (run cfg es f).puts ≤ maxsize
    → Counted since g f
    → Counted since g (run cfg es f)
unfolding run
Counted-run since span maxsize cfg g [] f keeps full w fits counted = counted
Counted-run since span maxsize cfg g (e ∷ es) f keeps full w fits counted =
    let next = step cfg e f in
    let small : length f.puts ≤ maxsize =
      omega (arith, length-step cfg e f, length-run cfg es next, fits) in
    let kept =
      Kept-step since span maxsize cfg g e f keeps full (Within-head since span e es w) small
        counted in
    Counted-run since span maxsize cfg g es next keeps full (Within-tail since span e es w) fits
      kept.0

-- Let messages be submitted, timers run out, flushes happen and the worker take messages in any
-- order, from a forwarder that is new, all submissions within one span of the cache's TTL. Where the
-- cache keeps what was put into it for the TTL while it is not over its size, and no more was put
-- than its size, a guid that is not empty is that of at most one message that is with the worker, in
-- the queue or first in a batch.
pub at_most_once :
    (since span maxsize : ℕ) (cfg : Settings) (g : Text) (es : List Event)
    → Keeps cfg since span maxsize
    → (is_empty g ≡ false)
    → Within since span es
    → length (run cfg es new_forwarder).puts ≤ maxsize
    → places g (run cfg es new_forwarder) ≤ 1
at_most_once since span maxsize cfg g es keeps full w fits =
    let counted =
      Counted-run since span maxsize cfg g es new_forwarder keeps full w fits (omega arith) in
    let bound : one (remembered since g (run cfg es new_forwarder).puts) ≤ 1 = ground arith in
    omega (arith, counted, bound)
