-- ===== src/Imessage/Forwarder.antt =====
-- The producer side of channels/joshua_channels/adapters/imessage/forwarder.py, with GuidDedupe of
-- dedupe.py. The TTL cache is what was put into it and when, read by a parameter. Times are
-- milliseconds: `now` of the wall clock, `moment` of the monotonic clock.
use joshua_ai.Base.{
  ℕ, suc, ◌+◌, Bool, true, false, not, ◌&&◌, ◌||◌, Option, some, none, List, [], ◌∷◌, ◌++◌, ◌==◌,
  ℕ_eq, List_eq, Pair_eq, is_empty, elem, length, leb, ltb, keep_if, if◌then◌else◌,
}
use joshua_ai.Base.Dict
use joshua_ai.Base.Dict.{Dict, values, keys}
use joshua_ai.Base.Text.{Text, join}
use joshua_ai.Imessage.Json.{Json, Python}
use joshua_ai.Imessage.Normalize.{
  Drop, duplicate, stale, queue_full, Attachment, InboundMessage, rejected, inbound,
  normalize_message,
}

-- What was put into the cache, the newest first, and when.
abbrev pub Puts : Type 0
Puts = List (ℕ × Text)

pub data Source : Type 0 where
  webhook reconcile : Source

pub record Settings : Type 0 where
  pub py : Python
  -- `guid in self._cache` at a time
  pub cached : Puts → ℕ → Text → Bool
  pub max_attachment_bytes : ℕ
  pub queue_maxsize : ℕ
  pub coalesce_window : ℕ
  pub stale_max_age : ℕ
  -- whether a loop is there to run a timer
  pub has_loop : Bool

-- A chat and a sender in it.
abbrev pub Key : Type 0
Key = Text × Text

pub record Batch : Type 0 where
  pub message : InboundMessage
  pub source : Source
  pub guids : List Text
  pub deadline : ℕ

-- `taken` is what the worker took from the queue, in order.
pub record Forwarder : Type 0 where
  pub puts : Puts
  pub pending : Dict Key Batch
  pub timers : List Key
  pub queue : List (InboundMessage × Source)
  pub taken : List (InboundMessage × Source)
  pub dropped : ℕ
  pub coalesced : ℕ

abbrev pub new_forwarder : Forwarder
new_forwarder = record {
  puts = [];
  pending = [];
  timers = [];
  queue = [];
  taken = [];
  dropped = 0;
  coalesced = 0;
}

-- `GuidDedupe.seen`, whether the guid was there, and the cache after it.
unfoldable pub seen : Settings → ℕ → Text → Puts → Bool × Puts
seen cfg moment guid puts =
    if is_empty guid
    then (false, puts)
    else if cfg.cached puts moment guid
    then (true, puts)
    else (false, (moment, guid) ∷ puts)

-- `GuidDedupe.record` for each guid.
unfoldable pub record_all : ℕ → List Text → Puts → Puts
record_all moment [] puts = puts
record_all moment (guid ∷ guids) puts =
    record_all moment guids (if is_empty guid then puts else (moment, guid) ∷ puts)

unfoldable pub is_stale : Settings → ℕ → ℕ → Bool
is_stale cfg now date_created =
    if cfg.stale_max_age == 0 || date_created == 0
    then false
    else ltb (date_created + cfg.stale_max_age) now

abbrev pub coalesce_key : InboundMessage → Key
coalesce_key m = (m.chat_guid, m.sender_address)

abbrev pub reindex : ℕ → List Attachment → List Attachment
reindex i [] = []
reindex i (a ∷ as_) = record a { index = i } ∷ reindex (suc i) as_

abbrev pub full : List Text → List Text
full ts = keep_if (λ t. not (is_empty t)) ts

unfoldable pub merge_messages : InboundMessage → InboundMessage → InboundMessage
merge_messages first later = record first {
  body = join (b'\n' ∷ []) (full (first.body ∷ later.body ∷ []));
  attachments = reindex 0 (first.attachments ++ later.attachments);
}

-- What `Coalescer.add` holds for the key of a message.
unfoldable pub held_with : Settings → ℕ → InboundMessage → Source → Option Batch → Batch
held_with cfg moment m source none = record {
  message = m;
  source = source;
  guids = m.message_guid ∷ [];
  deadline = moment + cfg.coalesce_window;
}
held_with cfg moment m source (some held) = record {
  message = merge_messages held.message m;
  source = held.source;
  guids = held.guids ++ m.message_guid ∷ [];
  deadline = moment + cfg.coalesce_window;
}

unfoldable pub hold : Settings → ℕ → InboundMessage → Source → Dict Key Batch → Dict Key Batch
hold cfg moment m source pending =
    let key = coalesce_key m in
    Dict.put key (held_with cfg moment m source (Dict.get key pending)) pending

pub data Status : Type 0 where
  dropped_for : Drop → Status
  queued coalescing : Status

unfoldable pub drop_message : Drop → Forwarder → Status × Forwarder
drop_message why f = (dropped_for why, record f { dropped = suc f.dropped })

-- `put_nowait` raises on a full queue; a queue of size 0 is never full.
abbrev pub is_full : Settings → Forwarder → Bool
is_full cfg f = ltb 0 cfg.queue_maxsize && leb cfg.queue_maxsize (length f.queue)

-- `_enqueue`
unfoldable pub enqueue : Settings → ℕ → Batch → Forwarder → Status × Forwarder
enqueue cfg moment b f =
    let marked = record f { puts = record_all moment b.guids f.puts } in
    if is_full cfg f then drop_message queue_full marked else (
      queued,
      record marked {
        queue = f.queue ++ (b.message, b.source) ∷ [];
        coalesced = if ltb 1 (length b.guids) then suc f.coalesced else f.coalesced;
      },
    )

-- `_flush_key`, none where nothing is held.
unfoldable pub flush_key : Settings → ℕ → Key → Forwarder → Option Status × Forwarder
flush_key cfg moment key f = elim (Dict.get key f.pending) [
  | none ↦ (none, f)
  | some b ↦
      let r = enqueue cfg moment b (record f { pending = Dict.remove key f.pending }) in
      (some r.0, r.1)
]

abbrev pub without : Key → List Key → List Key
without key ks = keep_if (λ k. not (k == key)) ks

-- `_arm_timer`
unfoldable pub arm_timer : Settings → ℕ → Key → Forwarder → Option Status × Forwarder
arm_timer cfg moment key f =
    let rest = record f { timers = without key f.timers } in
    if cfg.has_loop
    then (none, record f { timers = key ∷ without key f.timers })
    else flush_key cfg moment key rest

-- A message that is new: coalesced, or queued at once.
unfoldable pub take_in : Settings → ℕ → Source → InboundMessage → Forwarder → Status × Forwarder
take_in cfg moment source m f =
    let at_once : Batch = record {
      message = m;
      source = source;
      guids = m.message_guid ∷ [];
      deadline = moment;
    } in
    let held = record f { pending = hold cfg moment m source f.pending } in
    let armed = arm_timer cfg moment (coalesce_key m) held in
    let status : Status = elim armed.0 [ none ↦ coalescing | some s ↦ s ] in
    if cfg.coalesce_window == 0 then enqueue cfg moment at_once f else (status, armed.1)

unfoldable pub submit_message :
    Settings → ℕ → ℕ → Source → InboundMessage → Forwarder → Status × Forwarder
submit_message cfg now moment source m f =
    let asked = seen cfg moment m.message_guid f.puts in
    if is_stale cfg now m.date_created
    then drop_message stale f
    else if asked.0
    then drop_message duplicate (record f { puts = asked.1 })
    else take_in cfg moment source m (record f { puts = asked.1 })

-- `submit`
unfoldable pub submit : Settings → ℕ → ℕ → Source → Json → Forwarder → Status × Forwarder
submit cfg now moment source raw f = elim (normalize_message cfg.py cfg.max_attachment_bytes raw) [
  | rejected why guid ↦ drop_message why f
  | inbound m ↦ submit_message cfg now moment source m f
]

-- `_flush_after`: the end of a timer that is armed.
unfoldable pub expire : Settings → ℕ → Key → Forwarder → Forwarder
expire cfg moment key f = (flush_key cfg moment key (record f { timers = without key f.timers })).1

-- The batches by their deadline, the oldest first.
unfoldable pub insert_batch : Batch → List Batch → List Batch
insert_batch b [] = b ∷ []
insert_batch b (c ∷ cs) =
    let rest = insert_batch b cs in if ltb c.deadline b.deadline then c ∷ rest else b ∷ c ∷ cs

unfoldable pub by_deadline : List Batch → List Batch
by_deadline [] = []
by_deadline (b ∷ bs) = insert_batch b (by_deadline bs)

unfoldable pub enqueue_all : Settings → ℕ → List Batch → Forwarder → Forwarder
enqueue_all cfg moment [] f = f
enqueue_all cfg moment (b ∷ bs) f = enqueue_all cfg moment bs (enqueue cfg moment b f).1

unfoldable pub flush_pending : Settings → ℕ → Forwarder → Forwarder
flush_pending cfg moment f =
    enqueue_all cfg moment (by_deadline (values f.pending)) (record f { pending = [] })

-- `queue.get` of the worker.
unfoldable pub take_next : Forwarder → Forwarder
take_next f = elim f.queue [
  | [] ↦ f
  | m ∷ rest ↦ record f { queue = rest; taken = f.taken ++ m ∷ [] }
]

-- What happens to a forwarder: its clocks go on as they like.
pub data Event : Type 0 where
  submitted : ℕ → ℕ → Source → Json → Event
  expired : ℕ → Key → Event
  flushed : ℕ → Event
  worker_took : Event

unfoldable pub step : Settings → Event → Forwarder → Forwarder
step cfg (submitted now moment source raw) f = (submit cfg now moment source raw f).1
step cfg (expired moment key) f = if elem key f.timers then expire cfg moment key f else f
step cfg (flushed moment) f = flush_pending cfg moment f
step cfg worker_took f = take_next f

unfoldable pub run : Settings → List Event → Forwarder → Forwarder
run cfg [] f = f
run cfg (e ∷ es) f = run cfg es (step cfg e f)
