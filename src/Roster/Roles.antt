-- ===== src/Roster/Roles.antt =====
-- Who a group chat may write for: `group_role` of shared/joshua_shared/config.py.
use joshua_ai.Base.{
  String, true, none, some, List, [], ◌∷◌, ◌≡◌, ◌≢◌, ◌↔◌, All, refl, arith, Bool-cases, inl, inr,
  elem, beq_self, String_eq,
}
use joshua_ai.Roster.{
  Roster, Person, Group, member, people_by_handle, is_member_handle, first_guest, group_role,
}

-- The handle names a person of the roster whose role is `member`.
abbrev pub NamesMember : Roster → String → String → Type 0
NamesMember cfg channel handle =
    (p : Person) × (people_by_handle cfg channel handle ≡ some p) × (p.role ≡ member)

is_member_handle-NamesMember :
    (cfg : Roster) (channel handle : String)
    → (is_member_handle cfg channel handle ≡ true) ↔ NamesMember cfg channel handle
unfolding is_member_handle
is_member_handle-NamesMember cfg channel handle = (λ h. ground arith, λ (p, e, r). ground arith)

first_guest-All :
    (cfg : Roster) (channel : String) (handles : List String)
    → (first_guest cfg channel handles ≡ none) ↔ All (NamesMember cfg channel) handles
unfolding first_guest
first_guest-All cfg channel [] = (λ _. tt, λ _. refl)
first_guest-All cfg channel (h ∷ hs) =
    let head = is_member_handle-NamesMember cfg channel h in
    let rest = first_guest-All cfg channel hs in
    (λ e. ground (arith, head, rest), λ (m, ms). ground (arith, head.1 m, rest.1 ms))

-- A group chat has the role `member` exactly when its `members` list is not empty and every
-- handle in it names a person of the roster whose role is `member`.
pub group_role-member :
    (cfg : Roster) (g : Group)
    → ((group_role cfg g).0 ≡ member)
      ↔ ((g.members ≢ []) × All (NamesMember cfg g.channel) g.members)
unfolding group_role
group_role-member cfg g =
    let all_members = first_guest-All cfg g.channel g.members in
    (
      λ h. (λ e. ground arith, ground (arith, all_members)),
      λ (e, ms). ground (arith, all_members.1 ms),
    )

-- The handle that `group_role` names as the cause is on the group's list and names no member.
first_guest-elem :
    (cfg : Roster) (channel : String) (handles : List String) {h : String}
    → first_guest cfg channel handles ≡ some h
    → (elem h handles ≡ true) × ¬ NamesMember cfg channel h
unfolding first_guest
first_guest-elem cfg channel [] e = cc
first_guest-elem cfg channel (x ∷ xs) {h} e = elim (Bool-cases (is_member_handle cfg channel x)) [
  | inl old ↦
      let rest = first_guest-elem cfg channel xs {h = h} (ground arith) in
      (ground (arith, rest), rest.1)
  | inr new ↦ (
    ground (arith, beq_self x),
    λ m. ground (arith, (is_member_handle-NamesMember cfg channel h).1 m),
  )
]

pub group_role-cause :
    (cfg : Roster) (g : Group) {h : String}
    → (group_role cfg g).1 ≡ some h
    → (elem h g.members ≡ true) × ¬ NamesMember cfg g.channel h
unfolding group_role
group_role-cause cfg g {h} e = first_guest-elem cfg g.channel g.members (ground arith)
