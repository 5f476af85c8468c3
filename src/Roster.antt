-- ===== src/Roster.antt =====
-- The roster of shared/joshua_shared/config.py: people with their handles, the configured groups,
-- and the lookups that every inbound path makes. The validators of the YAML file are not modelled.
pub mod Roles
use joshua_ai.Base.{
  String, Bool, true, false, ◌||◌, ◌&&◌, Option, none, some, List, [], ◌∷◌, HasEq, ◌==◌, elem,
  String_eq, if◌then◌else◌,
}
use joshua_ai.Base.Dict
use joshua_ai.Base.Dict.{Dict}

pub data Role : Type 0 where
  member guest : Role

pub record Person : Type 0 where
  pub id : String
  pub name : String
  pub role : Role
  pub handles : Dict String (List String)

pub record Group : Type 0 where
  pub id : String
  pub channel : String
  pub chat_id : String
  pub members : List String

-- The part of `JoshuaConfig` that the lookups read.
pub record Roster : Type 0 where
  pub people : List Person
  pub groups : List Group

-- `ids` of a handle type, `[]` when the person has none there.
unfoldable pub handle_ids : Person → String → List String
handle_ids p handle_type = elim (Dict.get handle_type p.handles) [ none ↦ [] | some ids ↦ ids ]

unfoldable pub has_handle : Person → String → String → Bool
has_handle p handle_type handle_id = elem handle_id (handle_ids p handle_type)

unfoldable pub find_person : List Person → String → Option Person
find_person [] person_id = none
find_person (p ∷ ps) person_id = if p.id == person_id then some p else find_person ps person_id

unfoldable pub person : Roster → String → Option Person
person cfg person_id = find_person cfg.people person_id

unfoldable pub find_handle : List Person → String → String → Option Person
find_handle [] handle_type handle_id = none
find_handle (p ∷ ps) handle_type handle_id =
    if has_handle p handle_type handle_id then some p else find_handle ps handle_type handle_id

-- A `cli` handle is the person id.
unfoldable pub people_by_handle : Roster → String → String → Option Person
people_by_handle cfg handle_type handle_id =
    if handle_type == "cli"
    then person cfg handle_id
    else find_handle cfg.people handle_type handle_id

unfoldable pub find_group : List Group → String → String → Option Group
find_group [] channel chat_id = none
find_group (g ∷ gs) channel chat_id =
    if g.channel == channel && g.chat_id == chat_id then some g else find_group gs channel chat_id

unfoldable pub groups_by_chat : Roster → String → String → Option Group
groups_by_chat cfg channel chat_id = find_group cfg.groups channel chat_id

-- The role of one handle of a group, as the loop of `group_role` tests it.
unfoldable pub is_member_handle : Roster → String → String → Bool
is_member_handle cfg channel handle = elim (people_by_handle cfg channel handle) [
  | none ↦ false
  | some p ↦ elim p.role [ member ↦ true | guest ↦ false ]
]

unfoldable pub first_guest : Roster → String → List String → Option String
first_guest cfg channel [] = none
first_guest cfg channel (h ∷ hs) =
    if is_member_handle cfg channel h then first_guest cfg channel hs else some h

unfoldable pub group_role : Roster → Group → Role × Option String
group_role cfg group = elim group.members [
  | [] ↦ (guest, none)
  | _ ∷ _ ↦ elim (first_guest cfg group.channel group.members) [
    | none ↦ (member, none)
    | some handle ↦ (guest, some handle)
  ]
]
