-- ===== src/Imessage/Once.antt =====
-- A guid through every step of a forwarder.
use joshua_ai.Base.{
  ℕ, ◌+◌, ◌≤◌, ◌<◌, Bool, true, false, List, [], ◌∷◌, ◌==◌, ℕ_eq, List_eq, Pair_eq, is_empty, elem,
  length, if◌then◌else◌, if_cases, ◌≡◌, arith, Bool-cases, inl, inr, eq_of_beq,
}
use joshua_ai.Base.Text.{Text}
use joshua_ai.Imessage.Normalize.{
  duplicate, InboundMessage, Normalized, rejected, inbound, normalize_message,
}
use joshua_ai.Imessage.Forwarder.{
  Puts, Source, Settings, Forwarder, Status, is_stale, seen, drop_message, take_in, submit_message,
  submit, expire, flush_pending, take_next, Event, submitted, expired, flushed, worker_took, step,
}
use joshua_ai.Imessage.Counts.{one, remembered}
use joshua_ai.Imessage.Places.{
  places, Grows, Grows-take_in, Grows-expire, Grows-flush_pending, Grows-take_next,
}

-- A cache that keeps what was put into it for as long as the span, while it is not over its size.
abbrev pub Keeps : Settings → ℕ → ℕ → ℕ → Type 0
Keeps cfg since span maxsize =
    (puts : Puts) (moment : ℕ) (g : Text)
    → moment < since + span
    → length puts ≤ maxsize
    → remembered since g puts ≡ true
    → cfg.cached puts moment g ≡ true

-- What is submitted is submitted within the span.
abbrev pub Within : ℕ → ℕ → List Event → Type 0
Within since span [] = Unit
Within since span (submitted now moment source raw ∷ es) =
    (since ≤ moment) × (moment < since + span) × Within since span es
Within since span (expired moment key ∷ es) = Within since span es
Within since span (flushed moment ∷ es) = Within since span es
Within since span (worker_took ∷ es) = Within since span es

-- A guid stands in no more places than the cache has it.
abbrev pub Counted : ℕ → Text → Forwarder → Type 0
Counted since g f = places g f ≤ one (remembered since g f.puts)

-- A step keeps the count and puts into the cache only.
abbrev pub Kept : ℕ → Text → Forwarder → Forwarder → Type 0
Kept since g f f' = Counted since g f' × (length f.puts ≤ length f'.puts)

Kept-Grows :
    (since : ℕ) (g : Text) (f f' : Forwarder)
    → Counted since g f
    → Grows since g 0 f f'
    → Kept since g f f'
Kept-Grows since g f f' counted grown = (omega arith, omega arith)

-- A message that the cache does not have.
Kept-new :
    (since moment : ℕ) (cfg : Settings) (g : Text) (source : Source) (m : InboundMessage)
    (f : Forwarder)
    → since ≤ moment
    → (remembered since g f.puts ≡ true → m.message_guid ≡ g → ⊥)
    → Counted since g f
    → Kept since g f
        (take_in cfg moment source m (record f { puts = (moment, m.message_guid) ∷ f.puts })).1
Kept-new since moment cfg g source m f late fresh counted =
    let put = record f { puts = (moment, m.message_guid) ∷ f.puts } in
    let grown = Grows-take_in cfg since g moment source m put in
    let shown = Bool-cases (m.message_guid == g) in
    let counts : Counted since g (take_in cfg moment source m put).1 = elim shown [
      | inl same ↦
          let absent : remembered since g f.puts ≡ false =
            elim (Bool-cases (remembered since g f.puts)) [
              | inl old ↦ absurd (fresh old (eq_of_beq m.message_guid g same))
              | inr not_old ↦ not_old
            ] in
          grind (arith, grown, counted, absent, same, late)
      | inr other ↦ grind (arith, grown, counted, other, late)
    ] in
    (counts, omega (arith, grown))

-- A message without a guid is never the one that is counted.
Kept-blank :
    (since moment : ℕ) (cfg : Settings) (g : Text) (source : Source) (m : InboundMessage)
    (f : Forwarder)
    → is_empty g ≡ false
    → is_empty m.message_guid ≡ true
    → Counted since g f
    → Kept since g f (take_in cfg moment source m f).1
Kept-blank since moment cfg g source m f full blank counted =
    let grown = Grows-take_in cfg since g moment source m f in
    let other : (m.message_guid == g) ≡ false = elim (Bool-cases (m.message_guid == g)) [
      | inl same ↦ absurd (ground (arith, full, blank, eq_of_beq m.message_guid g same))
      | inr differs ↦ differs
    ] in
    (grind (arith, grown, counted, other), omega (arith, grown))

Kept-submit_message :
    (since span maxsize : ℕ) (cfg : Settings) (g : Text) (now moment : ℕ) (source : Source)
    (m : InboundMessage) (f : Forwarder)
    → Keeps cfg since span maxsize
    → (is_empty g ≡ false)
    → since ≤ moment
    → moment < since + span
    → length f.puts ≤ maxsize
    → Counted since g f
    → Kept since g f (submit_message cfg now moment source m f).1
unfolding submit_message seen drop_message
Kept-submit_message since span maxsize cfg g now moment source m f keeps full late early fits
      counted =
    let taken : Bool × Puts → Status × Forwarder = λ r.
      if r.0
      then drop_message duplicate (record f { puts = r.1 })
      else take_in cfg moment source m (record f { puts = r.1 }) in
    if_cases (λ (r : Status × Forwarder). Kept since g f r.1) (is_stale cfg now m.date_created) _ _
      (λ _. (counted, omega arith))
      (λ _.
        if_cases (λ (r : Bool × Puts). Kept since g f (taken r).1) (is_empty m.message_guid) _ _
          (λ blank. Kept-blank since moment cfg g source m f full blank counted)
          (λ _.
            if_cases (λ (r : Bool × Puts). Kept since g f (taken r).1)
              (cfg.cached f.puts moment m.message_guid) _ _ (λ _. (counted, omega arith))
              (λ fresh.
                Kept-new since moment cfg g source m f late
                  (λ old same. ground (arith, fresh, same, keeps f.puts moment g early fits old))
                  counted)))

pub Kept-step :
    (since span maxsize : ℕ) (cfg : Settings) (g : Text) (e : Event) (f : Forwarder)
    → Keeps cfg since span maxsize
    → (is_empty g ≡ false)
    → Within since span (e ∷ [])
    → length f.puts ≤ maxsize
    → Counted since g f
    → Kept since g f (step cfg e f)
unfolding step submit drop_message
Kept-step since span maxsize cfg g (submitted now moment source raw) f keeps full (late, early, _)
      fits counted =
    let handled : Normalized → Status × Forwarder = λ n. elim n [
      | rejected why guid ↦ drop_message why f
      | inbound m ↦ submit_message cfg now moment source m f
    ] in
    elim (normalize_message cfg.py cfg.max_attachment_bytes raw)
      as (λ n. Kept since g f (handled n).1) [
        | rejected why guid ↦ (counted, omega arith)
        | inbound m ↦
            Kept-submit_message since span maxsize cfg g now moment source m f keeps full late early
              fits counted
      ]
Kept-step since span maxsize cfg g (expired moment key) f keeps full w fits counted =
    if_cases (Kept since g f) (elem key f.timers) _ _
      (λ _.
        Kept-Grows since g f (expire cfg moment key f) counted
          (Grows-expire cfg since g moment key f))
      (λ _. (counted, omega arith))
Kept-step since span maxsize cfg g (flushed moment) f keeps full w fits counted =
    Kept-Grows since g f (flush_pending cfg moment f) counted
      (Grows-flush_pending cfg since g moment f)
Kept-step since span maxsize cfg g worker_took f keeps full w fits counted =
    Kept-Grows since g f (take_next f) counted (Grows-take_next since g f)
