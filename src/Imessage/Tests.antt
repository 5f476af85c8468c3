-- ===== src/Imessage/Tests.antt =====
-- Runs of the iMessage adapter on small payloads.
use joshua_ai.Base.{
  ℕ, ◌+◌, ◌≤◌, ◌<◌, Bool, true, false, ◌&&◌, Option, some, none, List, [], ◌∷◌, ◌==◌, ℕ_eq, List_eq,
  Pair_eq, String, any, ltb, ◌≡◌, refl, arith,
}
use joshua_ai.Base.Dict
use joshua_ai.Base.Dict.{Dict}
use joshua_ai.Base.Text.{
  Text, codes, strip, lstrip, rstrip, is_space, split, lower, to_lower, contains, starts_with,
  ends_with, join,
}
use joshua_ai.Imessage.Json.{
  pos, infinite, number, float, text, array, object, no_items, item, Fields, no_fields, field,
  Python, get, is_truthy, as_int, as_str, mapping,
}
use joshua_ai.Imessage.Normalize.{
  duplicate, queue_full, too_large, Attachment, InboundMessage, inbound, is_from_me, is_association,
  is_tapback, first_of, first_chat, clean_text, is_group_guid, normalize_address, sender_of,
  safe_filename, is_hidden_attachment, skip_of, attachment_of, collect, normalize_attachments,
  in_chat, normalize_message,
}
use joshua_ai.Imessage.Forwarder.{
  Puts, webhook, reconcile, Settings, Forwarder, new_forwarder, Status, dropped_for, seen,
  record_all, is_stale, merge_messages, held_with, hold, drop_message, enqueue, flush_key,
  arm_timer, take_in, submit_message, submit, expire, flush_pending, enqueue_all, insert_batch,
  by_deadline, take_next, Event, submitted, expired, flushed, worker_took, step, run,
}
use joshua_ai.Imessage.Counts.{remembered}
use joshua_ai.Imessage.Places.{places}
use joshua_ai.Imessage.Once.{Keeps}
use joshua_ai.Imessage.Runs.{at_most_once}
use joshua_ai.Imessage.Merge.{Arrival, hold_all, hold_all-burst}
use joshua_ai.Imessage.Reconcile.{
  date_created_ms, dated, newer_than, next_watermark, insert_row, oldest_first, Reconciler,
  submit_rows, Ended, returned, raised, tick,
}
use joshua_ai.Imessage.Ticks.{tick-again}
use joshua_ai.Imessage.Loss.{submit-is_full}
use joshua_ai.Imessage.Forwardable.{Forwardable, normalize_message-Forwardable}

abbrev python : Python
python = record { int_of = λ t. none; str_of = λ n. codes "1" }

-- A cache that keeps all for 900 milliseconds.
abbrev kept : Puts → ℕ → Text → Bool
kept puts moment g = any (λ p. ltb moment (p.0 + 900) && p.1 == g) puts

abbrev settings : ℕ → Settings
settings window = record {
  py = python;
  cached = kept;
  max_attachment_bytes = 100;
  queue_maxsize = 1;
  coalesce_window = window;
  stale_max_age = 0;
  has_loop = true;
}

kept-any :
    (since moment : ℕ) (g : Text) (puts : Puts)
    → moment < since + 900
    → remembered since g puts ≡ true
    → kept puts moment g ≡ true
kept-any since moment g [] early h = ground arith
kept-any since moment g (p ∷ puts) early h = ground (arith, kept-any since moment g puts early)

settings-Keeps : (window since : ℕ) → Keeps (settings window) since 900 4096
settings-Keeps window since puts moment g early small h = kept-any since moment g puts early h

abbrev payload : String → String → ℕ → Fields
payload guid body date = field (codes "guid") (text (codes guid)) (
    field (codes "text") (text (codes body)) (
      field (codes "dateCreated") (number (pos date)) (
        field (codes "chats")
          (array (item (object (field (codes "guid") (text (codes "c")) no_fields)) no_items))
          no_fields)))

abbrev from_anna : String → String → ℕ → InboundMessage
from_anna guid body date = record {
  message_guid = codes guid;
  chat_guid = codes "c";
  is_group = false;
  sender_address = [];
  sender_service = codes "iMessage";
  body = codes body;
  chat_display_name = none;
  date_created = date;
  attachments = [];
}

reads : normalize_message python 100 (object (payload "a" "hi" 5)) ≡ inbound (from_anna "a" "hi" 5)
unfolding normalize_message in_chat is_from_me is_tapback is_association first_chat first_of
    clean_text is_group_guid normalize_address sender_of normalize_attachments get is_truthy as_int
    as_str mapping strip lstrip rstrip is_space contains lower to_lower starts_with
reads = refl

abbrev with_photo : Fields
with_photo =
    field (codes "attachments")
      (array (
        item
          (object (
            field (codes "transferName") (text (codes "a/b.png")) (
              field (codes "totalBytes") (number (pos 900))
                (field (codes "guid") (text (codes "p")) no_fields))))
          no_items))
      (payload "a" "hi" 5)

abbrev photo : Attachment
photo = record {
  index = 0;
  filename = codes "b.png";
  mime_type = none;
  size = some (pos 900);
  guid = codes "p";
  skip_reason = some too_large;
}

reads_photo :
    normalize_message python 100 (object with_photo)
    ≡ inbound (record (from_anna "a" "hi" 5) { attachments = photo ∷ [] })
unfolding normalize_message in_chat is_from_me is_tapback is_association first_chat first_of
    clean_text is_group_guid normalize_address sender_of normalize_attachments collect attachment_of
    skip_of safe_filename is_hidden_attachment split ends_with get is_truthy as_int as_str mapping
    strip lstrip rstrip is_space contains lower to_lower starts_with
reads_photo = refl

normalize_message-Forwardable_example :
    Forwardable python 100 with_photo (record (from_anna "a" "hi" 5) { attachments = photo ∷ [] })
unfolding mapping
normalize_message-Forwardable_example =
    normalize_message-Forwardable python 100 (object with_photo)
      (record (from_anna "a" "hi" 5) { attachments = photo ∷ [] }) (λ n. refl) reads_photo

-- The webhook and the poller have the same message, and the worker takes it.
abbrev twice : List Event
twice =
    submitted 0 10 webhook (object (payload "a" "hi" 5))
    ∷ expired 12 (codes "c", [])
    ∷ worker_took
    ∷ submitted 0 20 reconcile (object (payload "a" "hi" 5))
    ∷ flushed 30
    ∷ []

at_most_once_example : places (codes "a") (run (settings 3) twice new_forwarder) ≤ 1
unfolding normalize_message in_chat is_from_me is_tapback is_association first_chat first_of
    clean_text is_group_guid normalize_address sender_of normalize_attachments get is_truthy as_int
    as_str mapping strip lstrip rstrip is_space contains lower to_lower starts_with seen record_all
    is_stale merge_messages held_with hold drop_message enqueue flush_key arm_timer take_in
    submit_message submit expire flush_pending enqueue_all insert_batch by_deadline take_next step
    run Dict.get Dict.put Dict.remove
at_most_once_example =
    at_most_once 0 900 4096 (settings 3) (codes "a") twice (settings-Keeps 3 0) refl
      (omega arith, omega arith, (omega arith, omega arith, tt)) (omega arith)

taken_once : (run (settings 3) twice new_forwarder).taken ≡ (from_anna "a" "hi" 5, webhook) ∷ []
unfolding normalize_message in_chat is_from_me is_tapback is_association first_chat first_of
    clean_text is_group_guid normalize_address sender_of normalize_attachments get is_truthy as_int
    as_str mapping strip lstrip rstrip is_space contains lower to_lower starts_with seen record_all
    is_stale merge_messages held_with hold drop_message enqueue flush_key arm_timer take_in
    submit_message submit expire flush_pending enqueue_all insert_batch by_deadline take_next step
    run Dict.get Dict.put Dict.remove
taken_once = refl

abbrev arrivals : List Arrival
arrivals =
    record { moment = 1; source = webhook; message = from_anna "a" "see" 5 }
    ∷ record {
      moment = 2;
      source = webhook;
      message = record (from_anna "b" "no" 5) { chat_guid = codes "d" };
    }
    ∷ record { moment = 3; source = reconcile; message = from_anna "c" "this" 6 }
    ∷ []

hold_all-burst_example :
    Dict.get (codes "c", []) (hold_all (settings 3) arrivals [])
    ≡ some (record {
      message = from_anna "a" "see\nthis" 5;
      source = webhook;
      guids = codes "a" ∷ codes "c" ∷ [];
      deadline = 6;
    })
unfolding join
hold_all-burst_example = hold_all-burst (settings 3) (codes "c", []) arrivals

abbrev page : Option (List Fields)
page = some (payload "c" "last" 7 ∷ payload "a" "hi" 5 ∷ payload "old" "no" 3 ∷ [])

abbrev poller : ℕ → ℕ → ℕ → Reconciler
poller watermark ticks recovered = record {
  watermark = watermark;
  ticks = ticks;
  recovered = recovered;
}

abbrev after_page : Ended
after_page = tick (settings 0) (λ i. (0, 10 + i)) page (poller 4 0 0) new_forwarder

abbrev forwarder_after : Ended → Forwarder
forwarder_after (returned n r f) = f
forwarder_after (raised r f) = f

-- The queue has room for one of the two rows only.
ticks_once : after_page ≡ returned 2 (poller 7 1 1) (forwarder_after after_page)
unfolding normalize_message in_chat is_from_me is_tapback is_association first_chat first_of
    clean_text is_group_guid normalize_address sender_of normalize_attachments get is_truthy as_int
    as_str mapping strip lstrip rstrip is_space contains lower to_lower starts_with seen record_all
    is_stale merge_messages held_with hold drop_message enqueue flush_key arm_timer take_in
    submit_message submit expire flush_pending enqueue_all insert_batch by_deadline take_next step
    run Dict.get Dict.put Dict.remove date_created_ms dated newer_than next_watermark insert_row
    oldest_first submit_rows tick
ticks_once = refl

tick-again_example :
    (4 ≤ 7)
    × (tick (settings 0) (λ i. (0, 90 + i)) page (poller 7 1 1) new_forwarder
        ≡ returned 0 (poller 7 2 1) new_forwarder)
tick-again_example =
    tick-again (settings 0) (λ i. (0, 10 + i)) (λ i. (0, 90 + i)) page (poller 4 0 0) (poller 7 1 1)
      (poller 7 1 1) new_forwarder (forwarder_after after_page) new_forwarder 2 ticks_once
      (omega arith)

-- A date that is an infinite float ends the loop.
infinite_date :
    tick
      (settings 0)
      (λ i. (0, 10 + i))
      (some (field (codes "dateCreated") (float true infinite (codes "inf")) no_fields ∷ []))
      (poller 4 0 0)
      new_forwarder
    ≡ raised (poller 4 1 0) new_forwarder
unfolding tick newer_than dated date_created_ms get
infinite_date = refl

-- A queue that the message of another sender fills.
abbrev filled : Forwarder
filled = record new_forwarder { queue = (from_anna "z" "first" 4, webhook) ∷ [] }

abbrev turned_away : Status × Forwarder
turned_away = submit (settings 0) 0 10 webhook (object (payload "a" "hi" 5)) filled

submit-is_full_example :
    (turned_away.0 ≡ dropped_for queue_full)
    × (turned_away.1.queue ≡ filled.queue)
    × ((submit
          (settings 0)
          0
          60
          reconcile
          (object (payload "a" "hi" 5))
          (record turned_away.1 { queue = [] })).0
        ≡ dropped_for duplicate)
unfolding is_stale
submit-is_full_example =
    submit-is_full (settings 0) 900 4096 0 10 0 60 webhook reconcile (object (payload "a" "hi" 5))
      (from_anna "a" "hi" 5) filled (record turned_away.1 { queue = [] }) (settings-Keeps 0 10)
      reads refl refl refl refl refl refl (omega arith) (omega arith) refl
