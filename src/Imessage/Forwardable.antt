-- ===== src/Imessage/Forwardable.antt =====
-- What `normalize_message` lets through.
use joshua_ai.Base.{
  ℕ, suc, ◌+◌, Bool, true, false, not, ◌&&◌, Option, some, none, List, [], ◌∷◌, ◌++◌, ℕ_eq, List_eq,
  is_empty, length, if◌then◌else◌, if_cases, ◌≡◌, refl, subst, arith,
}
use joshua_ai.Base.Text.{Text, codes}
use joshua_ai.Imessage.Json.{
  ℤ, Json, array, Items, no_items, item, Fields, Python, get, mapping, as_str, exceeds,
}
use joshua_ai.Imessage.Normalize.{
  from_me, tapback, no_chat, no_content, Skip, Attachment, InboundMessage, Normalized, clean_text,
  rejected, inbound, is_from_me, is_tapback, first_of, first_chat, is_hidden_attachment, skip_of,
  attachment_of, collect, normalize_attachments, message_of, in_chat, normalize_message,
}
use joshua_ai.Imessage.Names.{NoSlash, Plain, safe_filename-NoSlash, is_empty-safe_filename}

abbrev pub fits : ℕ → Option ℤ → Bool
fits max_bytes none = true
fits max_bytes (some n) = not (exceeds n max_bytes)

-- An attachment that is not skipped has a guid, and no size over the limit.
abbrev pub is_fetchable : ℕ → Attachment → Bool
is_fetchable max_bytes a = elim a.skip_reason [
  | none ↦ not (is_empty a.guid) && fits max_bytes a.size
  | some why ↦ true
]

-- Attachments with the indices from a number up, names that are one piece of a path, and no
-- download that is too large or has no guid.
abbrev pub Numbered : ℕ → ℕ → List Attachment → Type 0
Numbered max_bytes i [] = Unit
Numbered max_bytes i (a ∷ as_) =
    (a.index ≡ i)
    × (is_empty a.filename ≡ false)
    × NoSlash a.filename
    × (is_fetchable max_bytes a ≡ true)
    × Numbered max_bytes (suc i) as_

skip_of-fits :
    (max_bytes : ℕ) (guid : Text) (size : Option ℤ) (skip : Option Skip)
    → skip_of max_bytes guid size ≡ skip
    → elim skip [ none ↦ not (is_empty guid) && fits max_bytes size | some why ↦ true ] ≡ true
unfolding skip_of
skip_of-fits max_bytes guid size (some why) h = refl
skip_of-fits max_bytes [] size none h = ground arith
skip_of-fits max_bytes (c ∷ guid) none none h = refl
skip_of-fits max_bytes (c ∷ guid) (some n) none h = ground arith

is_fetchable-attachment_of :
    (py : Python) (max_bytes i : ℕ) (entry : Fields)
    → is_fetchable max_bytes (attachment_of py max_bytes i entry) ≡ true
unfolding attachment_of
is_fetchable-attachment_of py max_bytes i entry =
    let a = attachment_of py max_bytes i entry in
    skip_of-fits max_bytes a.guid a.size a.skip_reason refl

Numbered-append :
    (max_bytes i : ℕ) (as_ : List Attachment) (a : Attachment)
    → a.index ≡ i + length as_
    → is_empty a.filename ≡ false
    → NoSlash a.filename
    → is_fetchable max_bytes a ≡ true
    → Numbered max_bytes i as_
    → Numbered max_bytes i (as_ ++ a ∷ [])
Numbered-append max_bytes i [] a at_ named plain may all =
    (omega (arith, at_), named, plain, may, tt)
Numbered-append max_bytes i (b ∷ as_) a at_ named plain may (h, k, l, m, all) =
    (h, k, l, m, Numbered-append max_bytes (suc i) as_ a (omega (arith, at_)) named plain may all)

collect-Numbered :
    (py : Python) (max_bytes : ℕ) (js : Items) (out : List Attachment)
    → Plain py
    → Numbered max_bytes 0 out
    → Numbered max_bytes 0 (collect py max_bytes js out)
unfolding collect attachment_of
collect-Numbered py max_bytes no_items out plain all = all
collect-Numbered py max_bytes (item j js) out plain all =
    collect-Numbered py max_bytes js
      (if is_hidden_attachment (mapping j)
        then out
        else out ++ attachment_of py max_bytes (length out) (mapping j) ∷ [])
      plain
      (if_cases (Numbered max_bytes 0) (is_hidden_attachment (mapping j)) out
        (out ++ attachment_of py max_bytes (length out) (mapping j) ∷ []) (λ _. all)
        (λ _.
          Numbered-append max_bytes 0 out (attachment_of py max_bytes (length out) (mapping j))
            (omega arith)
            (is_empty-safe_filename py (get (codes "transferName") (mapping j)) (length out))
            (safe_filename-NoSlash py (get (codes "transferName") (mapping j)) (length out) plain)
            (is_fetchable-attachment_of py max_bytes (length out) (mapping j)) all))

normalize_attachments-Numbered :
    (py : Python) (max_bytes : ℕ) (raw : Json)
    → Plain py
    → Numbered max_bytes 0 (normalize_attachments py max_bytes raw)
unfolding normalize_attachments
normalize_attachments-Numbered py max_bytes (array js) plain =
    collect-Numbered py max_bytes js [] plain tt
normalize_attachments-Numbered py max_bytes _ plain = tt

abbrev HasGuid : Option Fields → Type 0
HasGuid none = Unit
HasGuid (some chat) = is_empty (as_str (get (codes "guid") chat)) ≡ false

first_of-HasGuid : (js : Items) → HasGuid (first_of js)
unfolding first_of
first_of-HasGuid no_items = tt
first_of-HasGuid (item j js) =
    if_cases HasGuid (is_empty (as_str (get (codes "guid") (mapping j)))) (first_of js)
      (some (mapping j)) (λ _. first_of-HasGuid js) (λ full. full)

first_chat-HasGuid : (payload : Fields) → HasGuid (first_chat payload)
unfolding first_chat
first_chat-HasGuid payload =
    elim (get (codes "chats") payload)
      as (λ j. HasGuid (elim j [ array js ↦ first_of js | _ ↦ none ])) [
        | array js ↦ first_of-HasGuid js
        | _ ↦ tt
      ]

-- A message of a payload that may go on.
abbrev pub Forwardable : Python → ℕ → Fields → InboundMessage → Type 0
Forwardable py max_bytes payload m =
    (is_from_me payload ≡ false)
    × (is_tapback py payload ≡ false)
    × (is_empty m.chat_guid ≡ false)
    × ((is_empty m.body && is_empty m.attachments) ≡ false)
    × Numbered max_bytes 0 m.attachments

abbrev IfInbound : Python → ℕ → Fields → Normalized → Type 0
IfInbound py max_bytes payload (rejected why guid) = Unit
IfInbound py max_bytes payload (inbound m) = Forwardable py max_bytes payload m

in_chat-Forwardable :
    (py : Python) (max_bytes : ℕ) (payload chat : Fields)
    → Plain py
    → is_from_me payload ≡ false
    → is_tapback py payload ≡ false
    → is_empty (as_str (get (codes "guid") chat)) ≡ false
    → IfInbound py max_bytes payload (in_chat py max_bytes payload chat)
unfolding in_chat
in_chat-Forwardable py max_bytes payload chat plain theirs message full =
    let body = clean_text (get (codes "text") payload) in
    let files = normalize_attachments py max_bytes (get (codes "attachments") payload) in
    if_cases (IfInbound py max_bytes payload) (is_empty body && is_empty files)
      (rejected no_content (as_str (get (codes "guid") payload)))
      (inbound (message_of py payload chat body files)) (λ _. tt)
      (λ some_content. (
        theirs,
        message,
        full,
        some_content,
        normalize_attachments-Numbered py max_bytes (get (codes "attachments") payload) plain,
      ))

normalize_message-IfInbound :
    (py : Python) (max_bytes : ℕ) (raw : Json)
    → Plain py
    → IfInbound py max_bytes (mapping raw) (normalize_message py max_bytes raw)
unfolding normalize_message
normalize_message-IfInbound py max_bytes raw plain =
    let payload = mapping raw in
    let guid = as_str (get (codes "guid") payload) in
    let past : Option Fields → Normalized = λ o. elim o [
      | none ↦ rejected no_chat guid
      | some chat ↦ in_chat py max_bytes payload chat
    ] in
    if_cases (IfInbound py max_bytes payload) (is_from_me payload) (rejected from_me guid)
      (if is_tapback py payload then rejected tapback guid else past (first_chat payload)) (λ _. tt)
      (λ theirs.
        if_cases (IfInbound py max_bytes payload) (is_tapback py payload) (rejected tapback guid)
          (past (first_chat payload)) (λ _. tt)
          (λ message.
            (elim (first_chat payload)
                as (λ o. HasGuid o → IfInbound py max_bytes payload (past o)) [
                  | none ↦ λ _. tt
                  | some chat ↦ λ full.
                      in_chat-Forwardable py max_bytes payload chat plain theirs message full
                ])
              (first_chat-HasGuid payload)))

-- A payload that becomes an inbound message is not our own and no reaction, and its message has a
-- chat, a text or an attachment, and attachments with the indices from 0 up, each with a name that
-- is not empty and has no slash, and each skipped unless it has a guid and no size over the limit.
-- The texts of numbers are taken to have no slash.
pub normalize_message-Forwardable :
    (py : Python) (max_bytes : ℕ) (raw : Json) (m : InboundMessage)
    → Plain py
    → normalize_message py max_bytes raw ≡ inbound m
    → Forwardable py max_bytes (mapping raw) m
normalize_message-Forwardable py max_bytes raw m plain h =
    subst (IfInbound py max_bytes (mapping raw)) h
      (normalize_message-IfInbound py max_bytes raw plain)
