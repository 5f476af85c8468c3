-- ===== src/Imessage/Places.antt =====
-- What one step does to the number of times a guid stands in a forwarder.
use joshua_ai.Base.{
  ℕ, ◌+◌, ◌≤◌, Option, some, none, List, [], ◌∷◌, ◌++◌, ◌==◌, ℕ_eq, List_eq, Pair_eq, length,
  if_cases, ◌≡◌, refl, ap, arith, Option-cases, List-cases, inl, inr,
}
use joshua_ai.Base.Dict
use joshua_ai.Base.Dict.{Dict, values}
use joshua_ai.Base.Text.{Text}
use joshua_ai.Imessage.Normalize.{InboundMessage}
use joshua_ai.Imessage.Forwarder.{
  Source, Settings, Key, Batch, Forwarder, Status, by_deadline, enqueue, is_full, drop_message,
  flush_key, arm_timer, without, hold, held_with, coalesce_key, merge_messages, take_in, expire,
  enqueue_all, flush_pending, take_next,
}
use joshua_ai.Imessage.Counts.{
  one, in_queue, in_batches, remembered, in_queue-append, in_batches-by_deadline,
  in_batches-put_new, in_batches-put_old, in_batches-remove, remembered-record_all,
  length-record_all,
}

-- Where the guid stands: with the worker, in the queue, and in the batches that are held.
abbrev pub places : Text → Forwarder → ℕ
places g f = in_queue g (f.taken ++ f.queue) + in_batches g (values f.pending)

-- At most so many more places, and a cache that was only put into.
abbrev pub Grows : ℕ → Text → ℕ → Forwarder → Forwarder → Type 0
Grows since g more f f' =
    (places g f' ≤ places g f + more)
    × (one (remembered since g f.puts) ≤ one (remembered since g f'.puts))
    × (length f.puts ≤ length f'.puts)

pub Grows-trans :
    (since : ℕ) (g : Text) (j k : ℕ) (a b c : Forwarder)
    → Grows since g j a b
    → Grows since g k b c
    → (i : ℕ) → i ≡ j + k
    → Grows since g i a c
Grows-trans since g j k a b c p q i h = (omega arith, omega arith, omega arith)

pub in_queue-last :
    (g : Text) (taken queue : List (InboundMessage × Source)) (m : InboundMessage) (s : Source)
    → in_queue g (taken ++ (queue ++ (m, s) ∷ []))
      ≡ in_queue g (taken ++ queue) + one (m.message_guid == g)
in_queue-last g taken queue m s = omega (
  arith,
  in_queue-append g taken (queue ++ (m, s) ∷ []),
  in_queue-append g queue ((m, s) ∷ []),
  in_queue-append g taken queue,
)

pub Grows-enqueue :
    (cfg : Settings) (since : ℕ) (g : Text) (moment : ℕ) (b : Batch) (f : Forwarder)
    → Grows since g (one (b.message.message_guid == g)) f (enqueue cfg moment b f).1
unfolding enqueue drop_message
Grows-enqueue cfg since g moment b f =
    if_cases (λ (r : Status × Forwarder). Grows since g (one (b.message.message_guid == g)) f r.1)
      (is_full cfg f) _ _
      (λ _. (
        omega arith,
        remembered-record_all since moment g b.guids f.puts,
        length-record_all moment b.guids f.puts,
      ))
      (λ _. (
        omega (arith, in_queue-last g f.taken f.queue b.message b.source),
        remembered-record_all since moment g b.guids f.puts,
        length-record_all moment b.guids f.puts,
      ))

pub Grows-flush_key :
    (cfg : Settings) (since : ℕ) (g : Text) (moment : ℕ) (key : Key) (f : Forwarder)
    → Grows since g 0 f (flush_key cfg moment key f).1
unfolding flush_key
Grows-flush_key cfg since g moment key f = elim (Option-cases (Dict.get key f.pending)) [
  | inl absent ↦ rw (absent, flush_key) (omega arith, omega arith, omega arith)
  | inr (b, held) ↦
      let lifted = record f { pending = Dict.remove key f.pending } in
      let queued_ = Grows-enqueue cfg since g moment b lifted in
      rw (held, flush_key)
        (omega (arith, in_batches-remove g key b f.pending held, queued_), queued_.1, queued_.2)
]

pub Grows-hold :
    (cfg : Settings) (since : ℕ) (g : Text) (moment : ℕ) (m : InboundMessage) (s : Source)
    (f : Forwarder)
    → Grows since g
        (one (m.message_guid == g))
        f
        (record f { pending = hold cfg moment m s f.pending })
unfolding hold held_with merge_messages
Grows-hold cfg since g moment m s f = elim (Option-cases (Dict.get (coalesce_key m) f.pending)) [
  | inl absent ↦
      let b = held_with cfg moment m s none in
      rw absent (
        omega (arith, in_batches-put_new g (coalesce_key m) b f.pending absent),
        omega arith,
        omega arith,
      )
  | inr (old, found) ↦
      let b = held_with cfg moment m s (some old) in
      rw found (
        omega (arith, in_batches-put_old g (coalesce_key m) b old f.pending found refl),
        omega arith,
        omega arith,
      )
]

pub Grows-arm_timer :
    (cfg : Settings) (since : ℕ) (g : Text) (moment : ℕ) (key : Key) (f : Forwarder)
    → Grows since g 0 f (arm_timer cfg moment key f).1
unfolding arm_timer
Grows-arm_timer cfg since g moment key f =
    if_cases (λ (r : Option Status × Forwarder). Grows since g 0 f r.1) cfg.has_loop _ _
      (λ _. (omega arith, omega arith, omega arith))
      (λ _. Grows-flush_key cfg since g moment key (record f { timers = without key f.timers }))

pub Grows-take_in :
    (cfg : Settings) (since : ℕ) (g : Text) (moment : ℕ) (s : Source) (m : InboundMessage)
    (f : Forwarder)
    → Grows since g (one (m.message_guid == g)) f (take_in cfg moment s m f).1
unfolding take_in
Grows-take_in cfg since g moment s m f =
    let held = record f { pending = hold cfg moment m s f.pending } in
    if_cases (λ (r : Status × Forwarder). Grows since g (one (m.message_guid == g)) f r.1)
      (cfg.coalesce_window == 0) _ _ (λ _. Grows-enqueue cfg since g moment _ f)
      (λ _.
        Grows-trans since g (one (m.message_guid == g)) 0 f held
          (arm_timer cfg moment (coalesce_key m) held).1 (Grows-hold cfg since g moment m s f)
          (Grows-arm_timer cfg since g moment (coalesce_key m) held) _ (omega arith))

pub Grows-expire :
    (cfg : Settings) (since : ℕ) (g : Text) (moment : ℕ) (key : Key) (f : Forwarder)
    → Grows since g 0 f (expire cfg moment key f)
unfolding expire
Grows-expire cfg since g moment key f =
    Grows-flush_key cfg since g moment key (record f { timers = without key f.timers })

Grows-enqueue_all :
    (cfg : Settings) (since : ℕ) (g : Text) (moment : ℕ) (bs : List Batch) (f : Forwarder)
    → Grows since g (in_batches g bs) f (enqueue_all cfg moment bs f)
unfolding enqueue_all
Grows-enqueue_all cfg since g moment [] f = (omega arith, omega arith, omega arith)
Grows-enqueue_all cfg since g moment (b ∷ bs) f =
    let next = (enqueue cfg moment b f).1 in
    Grows-trans since g (one (b.message.message_guid == g)) (in_batches g bs) f next
      (enqueue_all cfg moment bs next) (Grows-enqueue cfg since g moment b f)
      (Grows-enqueue_all cfg since g moment bs next) _ refl

pub Grows-flush_pending :
    (cfg : Settings) (since : ℕ) (g : Text) (moment : ℕ) (f : Forwarder)
    → Grows since g 0 f (flush_pending cfg moment f)
unfolding flush_pending
Grows-flush_pending cfg since g moment f =
    let emptied = record f { pending = [] } in
    let all = Grows-enqueue_all cfg since g moment (by_deadline (values f.pending)) emptied in
    (omega (arith, in_batches-by_deadline g (values f.pending), all), all.1, all.2)

pub Grows-take_next : (since : ℕ) (g : Text) (f : Forwarder) → Grows since g 0 f (take_next f)
unfolding take_next
Grows-take_next since g f = elim (List-cases f.queue) [
  | inl empty ↦
      let same : in_queue g (f.taken ++ f.queue) ≡ in_queue g (f.taken ++ []) =
        ap (λ q. in_queue g (f.taken ++ q)) empty in
      rw (empty, take_next) (omega arith, omega arith, omega arith)
  | inr ((m, s), rest, more) ↦
      rw (more, take_next)
        (
          omega (
            arith,
            in_queue-append g f.taken ((m, s) ∷ rest),
            in_queue-append g (f.taken ++ (m, s) ∷ []) rest,
            in_queue-append g f.taken ((m, s) ∷ []),
          ),
          omega arith,
          omega arith,
        )
]
