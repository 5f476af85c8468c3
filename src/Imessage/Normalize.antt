-- ===== src/Imessage/Normalize.antt =====
-- The pure guards of the iMessage adapter:
-- channels/joshua_channels/adapters/imessage/normalize.py.
use joshua_ai.Base.{
  ℕ, Bool, true, false, not, ◌&&◌, ◌||◌, Option, some, none, List, [], ◌∷◌, ◌++◌, ◌==◌, ℕ_eq,
  List_eq, is_empty, keep_if, length, if◌then◌else◌,
}
use joshua_ai.Base.Text.{Text, codes, strip, lower, contains, ends_with, split}
use joshua_ai.Imessage.Json.{
  Json, null, text, array, Items, no_items, item, Fields, ℤ, Python, get, is_truthy, is_zero,
  exceeds, at_least_zero, as_int, as_str, mapping,
}

-- Why a message is dropped, here and further on.
pub data Drop : Type 0 where
  from_me tapback no_chat no_content duplicate stale queue_full : Drop

pub data Skip : Type 0 where
  too_large no_guid : Skip

pub record Attachment : Type 0 where
  pub index : ℕ
  pub filename : Text
  pub mime_type : Option Text
  pub size : Option ℤ
  pub guid : Text
  -- why it is skipped, if it is
  pub skip_reason : Option Skip

pub record InboundMessage : Type 0 where
  pub message_guid : Text
  pub chat_guid : Text
  pub is_group : Bool
  pub sender_address : Text
  pub sender_service : Text
  pub body : Text
  pub chat_display_name : Option Text
  -- 0 where it is not known or below 0
  pub date_created : ℕ
  pub attachments : List Attachment

pub data Normalized : Type 0 where
  rejected : Drop → Text → Normalized
  inbound : InboundMessage → Normalized

abbrev pub or_none : Text → Option Text
or_none t = if is_empty t then none else some t

unfoldable pub is_from_me : Fields → Bool
unfolding get is_truthy
is_from_me payload = is_truthy (get (codes "isFromMe") payload)

-- What `associatedMessageType` says.
unfoldable pub is_association : Python → Json → Bool
is_association py null = false
is_association py (text t) =
    if is_empty t
    then false
    else elim (as_int py (text t)) [ none ↦ true | some n ↦ not (is_zero n) ]
is_association py other = elim (as_int py other) [ none ↦ true | some n ↦ not (is_zero n) ]

unfoldable pub is_tapback : Python → Fields → Bool
unfolding get is_truthy is_association
is_tapback py payload =
    is_truthy (get (codes "associatedMessageGuid") payload)
    || is_association py (get (codes "associatedMessageType") payload)

unfoldable pub first_of : Items → Option Fields
first_of no_items = none
first_of (item j js) =
    let rest = first_of js in
    if is_empty (as_str (get (codes "guid") (mapping j))) then rest else some (mapping j)

unfoldable pub first_chat : Fields → Option Fields
first_chat payload = elim (get (codes "chats") payload) [ array js ↦ first_of js | _ ↦ none ]

abbrev pub object_replacement : ℕ
object_replacement = 0xfffc

unfoldable pub clean_text : Json → Text
clean_text raw = strip (keep_if (λ c. not (c == object_replacement)) (as_str raw))

unfoldable pub is_group_guid : Text → Bool
is_group_guid chat_guid = contains (codes ";+;") chat_guid

unfoldable pub normalize_address : Json → Text
normalize_address address =
    let value = strip (as_str address) in if contains (codes "@") value then lower value else value

-- `a or b` of two values.
abbrev pub or_json : Json → Json → Json
or_json a b = if is_truthy a then a else b

abbrev pub or_text : Text → Text → Text
or_text a b = if is_empty a then b else a

unfoldable pub sender_of : Fields → Fields → Text × Text
sender_of payload chat =
    let handle = mapping (get (codes "handle") payload) in
    let address = normalize_address (get (codes "address") handle) in
    let fallback =
      normalize_address
        (or_json (get (codes "chatIdentifier") chat) (get (codes "chatIdentifier") payload)) in
    let service =
      or_text (as_str (get (codes "service") handle)) (as_str (get (codes "service") chat)) in
    (
      if is_empty address && not (is_group_guid (as_str (get (codes "guid") chat)))
          then fallback
          else address,
      or_text service (codes "iMessage"),
    )

-- The last piece of a path.
abbrev pub last_piece : List Text → Text
last_piece [] = []
last_piece (t ∷ []) = t
last_piece (t ∷ u ∷ ts) = last_piece (u ∷ ts)

abbrev pub slashes : Text → Text
slashes [] = []
slashes (c ∷ s) = (if c == b'\\' then b'/' else c) ∷ slashes s

unfoldable pub safe_filename : Python → Json → ℕ → Text
safe_filename py raw index =
    or_text (strip (last_piece (split b'/' (slashes (as_str raw)))))
      (codes "attachment-" ++ py.str_of index)

unfoldable pub is_hidden_attachment : Fields → Bool
is_hidden_attachment entry =
    is_truthy (get (codes "hideAttachment") entry)
    || ends_with (codes ".pluginpayloadattachment")
        (lower (strip (as_str (get (codes "transferName") entry))))

unfoldable pub skip_of : ℕ → Text → Option ℤ → Option Skip
skip_of max_bytes guid size =
    if is_empty guid
    then some no_guid
    else elim size [ none ↦ none | some n ↦ if exceeds n max_bytes then some too_large else none ]

unfoldable pub attachment_of : Python → ℕ → ℕ → Fields → Attachment
attachment_of py max_bytes index entry =
    let size = as_int py (get (codes "totalBytes") entry) in
    let guid = as_str (get (codes "guid") entry) in
    record {
      index = index;
      filename = safe_filename py (get (codes "transferName") entry) index;
      mime_type = or_none (as_str (get (codes "mimeType") entry));
      size = size;
      guid = guid;
      skip_reason = skip_of max_bytes guid size;
    }

-- The loop of `normalize_attachments`, with what it has so far.
unfoldable pub collect : Python → ℕ → Items → List Attachment → List Attachment
collect py max_bytes no_items out = out
collect py max_bytes (item j js) out =
    let entry = mapping j in
    collect py max_bytes js (
      if is_hidden_attachment entry
      then out
      else out ++ attachment_of py max_bytes (length out) entry ∷ [])

unfoldable pub normalize_attachments : Python → ℕ → Json → List Attachment
normalize_attachments py max_bytes raw = elim raw [ array js ↦ collect py max_bytes js [] | _ ↦ [] ]

-- The message of a payload in a chat, past the guards.
abbrev pub message_of : Python → Fields → Fields → Text → List Attachment → InboundMessage
message_of py payload chat body attachments =
    let sender = sender_of payload chat in
    record {
      message_guid = as_str (get (codes "guid") payload);
      chat_guid = as_str (get (codes "guid") chat);
      is_group = is_group_guid (as_str (get (codes "guid") chat));
      sender_address = sender.0;
      sender_service = sender.1;
      body = body;
      chat_display_name = or_none (as_str (get (codes "displayName") chat));
      date_created = elim (as_int py (get (codes "dateCreated") payload)) [
        | none ↦ 0
        | some n ↦ at_least_zero n
      ];
      attachments = attachments;
    }

unfoldable pub in_chat : Python → ℕ → Fields → Fields → Normalized
in_chat py max_bytes payload chat =
    let body = clean_text (get (codes "text") payload) in
    let attachments = normalize_attachments py max_bytes (get (codes "attachments") payload) in
    if is_empty body && is_empty attachments
    then rejected no_content (as_str (get (codes "guid") payload))
    else inbound (message_of py payload chat body attachments)

unfoldable pub normalize_message : Python → ℕ → Json → Normalized
normalize_message py max_bytes raw =
    let payload = mapping raw in
    let guid = as_str (get (codes "guid") payload) in
    let past : Normalized = elim (first_chat payload) [
      | none ↦ rejected no_chat guid
      | some chat ↦ in_chat py max_bytes payload chat
    ] in
    if is_from_me payload
    then rejected from_me guid
    else if is_tapback py payload
    then rejected tapback guid
    else past
