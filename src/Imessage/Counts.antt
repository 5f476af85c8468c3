-- ===== src/Imessage/Counts.antt =====
-- How often a guid stands in a forwarder, and what each part of a step does to that.
use joshua_ai.Base.{
  ℕ, ◌+◌, ◌≤◌, Bool, ◌&&◌, some, none, List, [], ◌∷◌, ◌++◌, ◌==◌, ℕ_eq, List_eq, Pair_eq, is_empty,
  any, length, leb, if◌then◌else◌, if_cases, if_true, if_false, ◌≡◌, refl, ap, sym, ◌∙◌, arith,
  Bool-cases, inl, inr,
}
use joshua_ai.Base.Dict
use joshua_ai.Base.Dict.{Dict, values}
use joshua_ai.Base.Text.{Text}
use joshua_ai.Imessage.Normalize.{InboundMessage}
use joshua_ai.Imessage.Forwarder.{Puts, Source, Key, Batch, record_all, by_deadline, insert_batch}

abbrev pub one : Bool → ℕ
one b = if b then 1 else 0

-- Messages of the guid in a queue, and batches that have it for their first message.
abbrev pub in_queue : Text → List (InboundMessage × Source) → ℕ
in_queue g [] = 0
in_queue g ((m, s) ∷ ms) = one (m.message_guid == g) + in_queue g ms

abbrev pub in_batches : Text → List Batch → ℕ
in_batches g [] = 0
in_batches g (b ∷ bs) = one (b.message.message_guid == g) + in_batches g bs

-- Whether the guid was put into the cache at a time or after it.
abbrev pub remembered : ℕ → Text → Puts → Bool
remembered since g puts = any (λ p. leb since p.0 && p.1 == g) puts

pub in_queue-append :
    (g : Text) (ms ns : List (InboundMessage × Source))
    → in_queue g (ms ++ ns) ≡ in_queue g ms + in_queue g ns
in_queue-append g [] ns = omega arith
in_queue-append g ((m, s) ∷ ms) ns = omega (arith, in_queue-append g ms ns)

pub in_batches-insert_batch :
    (g : Text) (b : Batch) (bs : List Batch)
    → in_batches g (insert_batch b bs) ≡ in_batches g (b ∷ bs)
unfolding insert_batch
in_batches-insert_batch g b [] = refl
in_batches-insert_batch g b (c ∷ cs) = ground (arith, in_batches-insert_batch g b cs)

pub in_batches-by_deadline :
    (g : Text) (bs : List Batch) → in_batches g (by_deadline bs) ≡ in_batches g bs
unfolding by_deadline
in_batches-by_deadline g [] = refl
in_batches-by_deadline g (b ∷ bs) =
    in_batches-insert_batch g b (by_deadline bs)
    ∙ ap (λ n. one (b.message.message_guid == g) + n) (in_batches-by_deadline g bs)

-- A batch under a new key, or in place of one with the same first message.
pub in_batches-put_new :
    (g : Text) (key : Key) (b : Batch) (d : Dict Key Batch)
    → Dict.get key d ≡ none
    → in_batches g (values (Dict.put key b d))
      ≡ in_batches g (values d) + one (b.message.message_guid == g)
unfolding Dict.get Dict.put
in_batches-put_new g key b [] h = omega arith
in_batches-put_new g key b ((k, c) ∷ d) h = ground (arith, in_batches-put_new g key b d)

pub in_batches-put_old :
    (g : Text) (key : Key) (b old : Batch) (d : Dict Key Batch)
    → Dict.get key d ≡ some old
    → b.message.message_guid ≡ old.message.message_guid
    → in_batches g (values (Dict.put key b d)) ≡ in_batches g (values d)
unfolding Dict.get Dict.put
in_batches-put_old g key b old [] h same = ground arith
in_batches-put_old g key b old ((k, c) ∷ d) h same = elim (Bool-cases (k == key)) [
  | inl eq ↦
      let here : some c ≡ some old = sym (if_true (k == key) (some c) (Dict.get key d) eq) ∙ h in
      ground (arith, eq, same, here)
  | inr ne ↦
      let there : Dict.get key d ≡ some old =
        sym (if_false (k == key) (some c) (Dict.get key d) ne) ∙ h in
      rw (ne, in_batches-put_old g key b old d there same) refl
]

pub in_batches-remove :
    (g : Text) (key : Key) (b : Batch) (d : Dict Key Batch)
    → Dict.get key d ≡ some b
    → in_batches g (values (Dict.remove key d)) + one (b.message.message_guid == g)
      ≡ in_batches g (values d)
unfolding Dict.get Dict.remove
in_batches-remove g key b [] h = ground arith
in_batches-remove g key b ((k, c) ∷ d) h = elim (Bool-cases (k == key)) [
  | inl eq ↦ ground arith
  | inr ne ↦ ground (arith, in_batches-remove g key b d)
]

pub remembered_more :
    (since : ℕ) (g : Text) (p : ℕ × Text) (puts : Puts)
    → one (remembered since g puts) ≤ one (remembered since g (p ∷ puts))
remembered_more since g p puts = ground arith

pub remembered-record_all :
    (since moment : ℕ) (g : Text) (guids : List Text) (puts : Puts)
    → one (remembered since g puts) ≤ one (remembered since g (record_all moment guids puts))
unfolding record_all
remembered-record_all since moment g [] puts = omega arith
remembered-record_all since moment g (x ∷ guids) puts =
    if_cases
      (λ q. one (remembered since g puts) ≤ one (remembered since g (record_all moment guids q)))
      (is_empty x) puts ((moment, x) ∷ puts) (λ _. remembered-record_all since moment g guids puts)
      (λ _. omega (
        arith,
        remembered-record_all since moment g guids ((moment, x) ∷ puts),
        remembered_more since g (moment, x) puts,
      ))

pub length-record_all :
    (moment : ℕ) (guids : List Text) (puts : Puts)
    → length puts ≤ length (record_all moment guids puts)
unfolding record_all
length-record_all moment [] puts = omega arith
length-record_all moment (x ∷ guids) puts =
    if_cases (λ q. length puts ≤ length (record_all moment guids q)) (is_empty x) puts
      ((moment, x) ∷ puts) (λ _. length-record_all moment guids puts)
      (λ _. omega (arith, length-record_all moment guids ((moment, x) ∷ puts)))
