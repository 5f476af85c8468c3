-- ===== src/Imessage/Merge.antt =====
-- What the coalescer holds for each chat and sender after a sequence of arrivals.
use joshua_ai.Base.{
  ℕ, suc, ◌+◌, Option, some, none, List, [], ◌∷◌, ◌++◌, map, ◌==◌, ℕ_eq, List_eq, Pair_eq, keep_if,
  if_cases, if_true, if_false, ◌≡◌, refl, ap, sym, ◌∙◌, eq_of_beq,
}
use mathlib.Core.List.{append_assoc, append-nil}
use joshua_ai.Base.Dict
use joshua_ai.Base.Dict.{Dict, get-put}
use joshua_ai.Base.Text.{Text, join}
use joshua_ai.Imessage.Normalize.{Attachment, InboundMessage}
use joshua_ai.Imessage.Forwarder.{
  Source, Settings, Key, Batch, coalesce_key, reindex, full, merge_messages, held_with, hold,
}
use joshua_ai.Imessage.Joined.{join-full}

-- A message that is held, with its source and the time of its arrival.
pub record Arrival : Type 0 where
  pub moment : ℕ
  pub source : Source
  pub message : InboundMessage

unfoldable pub hold_all : Settings → List Arrival → Dict Key Batch → Dict Key Batch
hold_all cfg [] pending = pending
hold_all cfg (a ∷ as_) pending = hold_all cfg as_ (hold cfg a.moment a.message a.source pending)

-- The arrivals of one chat and sender.
abbrev pub own : Key → List Arrival → List Arrival
own key as_ = keep_if (λ a. coalesce_key a.message == key) as_

abbrev pub bodies : List Arrival → List Text
bodies as_ = map (λ a. a.message.body) as_

abbrev pub guids_of : List Arrival → List Text
guids_of as_ = map (λ a. a.message.message_guid) as_

abbrev pub attachments_of : List Arrival → List Attachment
attachments_of [] = []
attachments_of (a ∷ as_) = a.message.attachments ++ attachments_of as_

abbrev pub last_moment : ℕ → List Arrival → ℕ
last_moment moment [] = moment
last_moment moment (a ∷ as_) = last_moment a.moment as_

-- One message of a burst: the first of it, with the texts and the attachments of all.
abbrev pub joined_with : InboundMessage → List Arrival → InboundMessage
joined_with m [] = m
joined_with m (b ∷ bs) = record m {
  body = join (b'\n' ∷ []) (full (m.body ∷ bodies (b ∷ bs)));
  attachments = reindex 0 (m.attachments ++ attachments_of (b ∷ bs));
}

abbrev pub burst : Settings → List Arrival → Option Batch
burst cfg [] = none
burst cfg (a ∷ as_) = some (record {
  message = joined_with a.message as_;
  source = a.source;
  guids = guids_of (a ∷ as_);
  deadline = last_moment a.moment as_ + cfg.coalesce_window;
})

reindex-append :
    (i j : ℕ) (as_ bs : List Attachment) → reindex i (reindex j as_ ++ bs) ≡ reindex i (as_ ++ bs)
reindex-append i j [] bs = refl
reindex-append i j (a ∷ as_) bs =
    ap (λ cs. record a { index = i } ∷ cs) (reindex-append (suc i) (suc j) as_ bs)

attachments_of-append :
    (as_ bs : List Arrival) → attachments_of (as_ ++ bs) ≡ attachments_of as_ ++ attachments_of bs
attachments_of-append [] bs = refl
attachments_of-append (a ∷ as_) bs =
    ap (λ q. a.message.attachments ++ q) (attachments_of-append as_ bs)
    ∙ sym (append_assoc a.message.attachments (attachments_of as_) (attachments_of bs))

last_moment-append :
    (moment : ℕ) (as_ : List Arrival) (z : Arrival) → last_moment moment (as_ ++ z ∷ []) ≡ z.moment
last_moment-append moment [] z = refl
last_moment-append moment (a ∷ as_) z = last_moment-append a.moment as_ z

bodies-append : (as_ bs : List Arrival) → bodies (as_ ++ bs) ≡ bodies as_ ++ bodies bs
bodies-append [] bs = refl
bodies-append (a ∷ as_) bs = ap (λ q. a.message.body ∷ q) (bodies-append as_ bs)

guids_of-append : (as_ bs : List Arrival) → guids_of (as_ ++ bs) ≡ guids_of as_ ++ guids_of bs
guids_of-append [] bs = refl
guids_of-append (a ∷ as_) bs = ap (λ q. a.message.message_guid ∷ q) (guids_of-append as_ bs)

-- One more arrival of a burst.
abbrev after : Settings → Option Batch → List Arrival → Option Batch
after cfg o [] = o
after cfg o (z ∷ zs) = after cfg (some (held_with cfg z.moment z.message z.source o)) zs

merge_messages-joined_with :
    (m : InboundMessage) (as_ : List Arrival) (z : Arrival)
    → merge_messages (joined_with m as_) z.message ≡ joined_with m (as_ ++ z ∷ [])
unfolding merge_messages
merge_messages-joined_with m [] z = rw (append-nil z.message.attachments) refl
merge_messages-joined_with m (a ∷ as_) z =
    let newline : Text = b'\n' ∷ [] in
    let all = m.body ∷ bodies (a ∷ as_) in
    let files = m.attachments ++ attachments_of (a ∷ as_) in
    let texts : join newline (full (join newline (full all) ∷ z.message.body ∷ []))
        ≡ join newline (full (m.body ∷ bodies (a ∷ (as_ ++ z ∷ [])))) =
      join-full newline all z.message.body
      ∙ ap (λ q. join newline (full (m.body ∷ a.message.body ∷ q)))
          (sym (bodies-append as_ (z ∷ []))) in
    let regrouped : files ++ z.message.attachments
        ≡ m.attachments ++ attachments_of (a ∷ (as_ ++ z ∷ [])) =
      append_assoc m.attachments (attachments_of (a ∷ as_)) z.message.attachments
      ∙ ap (λ q. m.attachments ++ q)
          (append_assoc a.message.attachments (attachments_of as_) z.message.attachments
            ∙ ap (λ q. a.message.attachments ++ q)
                (ap (λ q. attachments_of as_ ++ q) (sym (append-nil z.message.attachments))
                  ∙ sym (attachments_of-append as_ (z ∷ [])))) in
    ap
      (λ t. record m {
        body = t;
        attachments = reindex 0 (reindex 0 files ++ z.message.attachments);
      })
      texts
    ∙ ap
        (λ q. record m {
          body = join newline (full (m.body ∷ bodies (a ∷ (as_ ++ z ∷ []))));
          attachments = q;
        })
        (reindex-append 0 0 files z.message.attachments ∙ ap (reindex 0) regrouped)

held_with-burst :
    (cfg : Settings) (ys : List Arrival) (z : Arrival)
    → some (held_with cfg z.moment z.message z.source (burst cfg ys)) ≡ burst cfg (ys ++ z ∷ [])
unfolding held_with
held_with-burst cfg [] z = refl
held_with-burst cfg (a ∷ as_) z =
    rw
      (
        merge_messages-joined_with a.message as_ z,
        guids_of-append as_ (z ∷ []),
        last_moment-append a.moment as_ z,
      )
      refl

after-burst :
    (cfg : Settings) (ys zs : List Arrival) → after cfg (burst cfg ys) zs ≡ burst cfg (ys ++ zs)
after-burst cfg ys [] = ap (burst cfg) (sym (append-nil ys))
after-burst cfg ys (z ∷ zs) =
    ap (λ o. after cfg o zs) (held_with-burst cfg ys z)
    ∙ after-burst cfg (ys ++ z ∷ []) zs
    ∙ ap (burst cfg) (append_assoc ys (z ∷ []) zs)

get-hold_all :
    (cfg : Settings) (key : Key) (as_ : List Arrival) (pending : Dict Key Batch)
    → Dict.get key (hold_all cfg as_ pending) ≡ after cfg (Dict.get key pending) (own key as_)
unfolding hold_all hold
get-hold_all cfg key [] pending = refl
get-hold_all cfg key (a ∷ as_) pending =
    let held_of : Arrival → Dict Key Batch → Batch =
      λ b d. held_with cfg b.moment b.message b.source (Dict.get (coalesce_key b.message) d) in
    get-hold_all cfg key as_ (hold cfg a.moment a.message a.source pending)
    ∙ if_cases
        (λ (q : List Arrival).
          after cfg (Dict.get key (hold cfg a.moment a.message a.source pending)) (own key as_)
          ≡ after cfg (Dict.get key pending) q)
        (coalesce_key a.message == key) (a ∷ own key as_) (own key as_)
        (λ same.
          ap (λ o. after cfg o (own key as_))
            (get-put (coalesce_key a.message) key (held_of a pending) pending
              ∙ if_true (coalesce_key a.message == key) (some (held_of a pending))
                  (Dict.get key pending) same
              ∙ ap (λ k. some (held_with cfg a.moment a.message a.source (Dict.get k pending)))
                  (eq_of_beq (coalesce_key a.message) key same)))
        (λ other.
          ap (λ o. after cfg o (own key as_))
            (get-put (coalesce_key a.message) key (held_of a pending) pending
              ∙ if_false (coalesce_key a.message == key) (some (held_of a pending))
                  (Dict.get key pending) other))

-- From nothing held, after any arrivals of any chats and senders, what is held for a chat and sender
-- is one batch of its own arrivals and of no others, none where it has none: the first message, with
-- the texts that are not empty joined by a newline in the order of their arrival, the attachments of
-- all in that order with indices from 0 up where there are two or more, the guids of all, the
-- source of the first, and the time of the last with the window for a deadline.
pub hold_all-burst :
    (cfg : Settings) (key : Key) (as_ : List Arrival)
    → Dict.get key (hold_all cfg as_ []) ≡ burst cfg (own key as_)
unfolding Dict.get
hold_all-burst cfg key as_ = get-hold_all cfg key as_ [] ∙ after-burst cfg [] (own key as_)
