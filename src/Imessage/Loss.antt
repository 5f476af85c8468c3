-- ===== src/Imessage/Loss.antt =====
-- What becomes of a message that a full queue turns away.
use joshua_ai.Base.{
  ℕ, suc, ◌+◌, ◌≤◌, ◌<◌, true, false, ◌∷◌, ◌==◌, ℕ_eq, List_eq, is_empty, length, ◌≡◌, refl, ap,
  ◌∙◌, arith, beq_self,
}
use joshua_ai.Base.Text.{Text}
use joshua_ai.Imessage.Json.{Json}
use joshua_ai.Imessage.Normalize.{duplicate, queue_full, InboundMessage, inbound, normalize_message}
use joshua_ai.Imessage.Forwarder.{
  Puts, Source, Settings, Forwarder, dropped_for, is_stale, is_full, seen, record_all, drop_message,
  enqueue, take_in, submit_message, submit,
}
use joshua_ai.Imessage.Counts.{remembered}
use joshua_ai.Imessage.Once.{Keeps}

submit-inbound :
    (cfg : Settings) (now moment : ℕ) (source : Source) (raw : Json) (m : InboundMessage)
    (f : Forwarder)
    → normalize_message cfg.py cfg.max_attachment_bytes raw ≡ inbound m
    → submit cfg now moment source raw f ≡ submit_message cfg now moment source m f
unfolding submit
submit-inbound cfg now moment source raw m f h = rw (h, submit) refl

submit_message-full :
    (cfg : Settings) (now moment : ℕ) (source : Source) (m : InboundMessage) (f : Forwarder)
    → is_empty m.message_guid ≡ false
    → is_stale cfg now m.date_created ≡ false
    → cfg.cached f.puts moment m.message_guid ≡ false
    → (cfg.coalesce_window == 0) ≡ true
    → is_full cfg f ≡ true
    → submit_message cfg now moment source m f ≡ (
      dropped_for queue_full,
      record f {
        puts = (moment, m.message_guid) ∷ (moment, m.message_guid) ∷ f.puts;
        dropped = suc f.dropped;
      },
    )
unfolding submit_message seen take_in enqueue record_all drop_message
submit_message-full cfg now moment source m f solid fresh unseen off full_ =
    rw (fresh, solid, unseen, off, full_) refl

submit_message-seen :
    (cfg : Settings) (now moment : ℕ) (source : Source) (m : InboundMessage) (f : Forwarder)
    → is_empty m.message_guid ≡ false
    → is_stale cfg now m.date_created ≡ false
    → cfg.cached f.puts moment m.message_guid ≡ true
    → (submit_message cfg now moment source m f).0 ≡ dropped_for duplicate
unfolding submit_message seen drop_message
submit_message-seen cfg now moment source m f solid fresh known = rw (fresh, solid, known) refl

remembered-put :
    (moment : ℕ) (g : Text) (puts : Puts) → remembered moment g ((moment, g) ∷ puts) ≡ true
remembered-put moment g puts = ground (arith, beq_self g)

-- Let nothing be coalesced and the queue be full, and let a message with a guid come that is neither
-- stale nor in the cache. Its status is queue_full and the queue stays as it is; but the guid is in the
-- cache then: as long as the cache keeps it, the same message, submitted again by the webhook or by
-- the poller, is dropped as a duplicate, whatever room the queue has by then.
pub submit-is_full :
    (cfg : Settings) (span maxsize now moment now' moment' : ℕ) (source source' : Source)
    (raw : Json) (m : InboundMessage) (f later : Forwarder)
    → Keeps cfg moment span maxsize
    → normalize_message cfg.py cfg.max_attachment_bytes raw ≡ inbound m
    → is_empty m.message_guid ≡ false
    → is_stale cfg now m.date_created ≡ false
    → is_stale cfg now' m.date_created ≡ false
    → cfg.cached f.puts moment m.message_guid ≡ false
    → (cfg.coalesce_window == 0) ≡ true
    → is_full cfg f ≡ true
    → length f.puts + 2 ≤ maxsize
    → moment' < moment + span
    → later.puts ≡ (submit cfg now moment source raw f).1.puts
    → ((submit cfg now moment source raw f).0 ≡ dropped_for queue_full)
      × ((submit cfg now moment source raw f).1.queue ≡ f.queue)
      × ((submit cfg now' moment' source' raw later).0 ≡ dropped_for duplicate)
submit-is_full cfg span maxsize now moment now' moment' source source' raw m f later keeps reads
      solid fresh fresh' unseen off full_ room soon same =
    let g = m.message_guid in
    let first =
      submit-inbound cfg now moment source raw m f reads
      ∙ submit_message-full cfg now moment source m f solid fresh unseen off full_ in
    let put : later.puts ≡ (moment, g) ∷ (moment, g) ∷ f.puts = same ∙ ap (λ r. r.1.puts) first in
    let known : cfg.cached later.puts moment' g ≡ true = rw put (
      keeps ((moment, g) ∷ (moment, g) ∷ f.puts) moment' g soon (ground (arith, room))
        (remembered-put moment g ((moment, g) ∷ f.puts))) in
    (
      ap (λ r. r.0) first,
      ap (λ r. r.1.queue) first,
      ap (λ r. r.0) (submit-inbound cfg now' moment' source' raw m later reads)
          ∙ submit_message-seen cfg now' moment' source' m later solid fresh' known,
    )
