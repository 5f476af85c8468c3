-- ===== src/Deliver.antt =====
-- POST /v1/deliver of channels/joshua_channels/deliver.py. A path is the list of its components; the
-- `send` of an adapter is a parameter: none where it raises, and else its answer, a number or not.
pub mod Private
mod Tests
use joshua_ai.Base.{
  ℕ, String, Bool, true, false, not, ◌&&◌, ◌||◌, Option, some, none, List, [], ◌∷◌, ◌++◌, ◌==◌,
  ℕ_eq, List_eq, is_empty, elem, if◌then◌else◌, keep_if, ◌⊎◌, inl, inr,
}
use joshua_ai.Base.Text.{Text, codes, starts_with, split}
use joshua_ai.Paths.{FilePath, parts_of}
use joshua_ai.Destinations as Destinations
use joshua_ai.Destinations.{Settings, Resolved, Kind, dm, group, resolve}

pub data AttachmentError : Type 0 where
  unsafe group_chat no_person other_person : AttachmentError

abbrev pub is_absolute : Text → Bool
is_absolute raw = starts_with (codes "/") raw

-- `base / rel`
abbrev pub under : FilePath → Text → FilePath
under base rel = if is_absolute rel then parts_of rel else base ++ parts_of rel

-- The name after the first is the person's.
abbrev pub is_second : Text → List Text → Bool
is_second name (p ∷ q ∷ qs) = q == name
is_second name _ = false

-- What a path with these components maps to.
unfoldable pub map_parts : FilePath → Resolved → Text → List Text → AttachmentError ⊎ FilePath
map_parts root r first parts =
    if first == codes "shared" || first == codes "wiki" then inr (root ++ parts) else elim r.kind [
      | group ↦ inl group_chat
      | dm ↦ elim r.person_id [
        | none ↦ inl no_person
        | some person_id ↦
            if first == codes "people"
            then if is_second (codes person_id) parts then inr (root ++ parts) else inl other_person
            else inr (under (root ++ codes "people" ∷ []) (codes person_id) ++ parts)
      ]
    ]

unfoldable pub map_attachment : FilePath → Resolved → Text → AttachmentError ⊎ FilePath
map_attachment root r raw =
    let parts = parts_of raw in
    let mapped : AttachmentError ⊎ FilePath = elim parts [
      | [] ↦ inl unsafe
      | first ∷ rest ↦ map_parts root r first (first ∷ rest)
    ] in
    if is_absolute raw || is_empty parts || elem (codes "..") parts then inl unsafe else mapped

unfoldable pub map_attachments : FilePath → Resolved → List Text → AttachmentError ⊎ List FilePath
map_attachments root r [] = inr []
map_attachments root r (raw ∷ raws) =
    let rest = map_attachments root r raws in
    elim (map_attachment root r raw) [
      | inl error ↦ inl error
      | inr file ↦ elim rest [ inl error ↦ inl error | inr files ↦ inr (file ∷ files) ]
    ]

-- A body that is a JSON object, each member as `str` makes it.
pub record Body : Type 0 where
  pub channel : String
  pub content : String
  pub attachments : List Text

-- A call of `send` of the adapter of a type.
pub record Sending : Type 0 where
  pub channel_type : String
  pub chat_id : String
  pub content : String
  pub files : List FilePath

pub data Response : Type 0 where
  bad_request unknown_channel send_failed : Response
  invalid_attachment : AttachmentError → Response
  delivered : ℕ → Response

module _ (send : Sending → Option (Option ℕ)) where
  unfoldable pub answer : Sending → Response
  answer s = elim (send s) [
    | none ↦ send_failed
    | some none ↦ delivered 1
    | some (some parts) ↦ delivered parts
  ]

  -- The route, with what it asked an adapter to send.
  unfoldable pub deliver : Settings → FilePath → Option Body → Response × Option Sending
  unfolding answer
  deliver cfg root none = (bad_request, none)
  deliver cfg root (some body) = elim (resolve cfg body.channel) [
    | none ↦ (unknown_channel, none)
    | some r ↦ elim (map_attachments root r body.attachments) [
      | inl error ↦ (invalid_attachment error, none)
      | inr files ↦
          let s : Sending = record {
            channel_type = r.channel_type;
            chat_id = r.chat_id;
            content = body.content;
            files = files;
          } in
          (answer s, some s)
    ]
  ]
