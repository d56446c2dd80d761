-- ===== src/Workspace/Policy.antt =====
-- internal/workspace/models.go and policy.go: roles, and what they allow.
use runspace.Prelude.{◌≡◌, refl, String, Bool, true, false, ◌||◌, if◌then◌else◌}

-- A role is a text; `other_role` is any but the four.
pub data Role : Type 0 where
  owner admin member viewer : Role
  other_role : String → Role

pub data Action : Type 0 where
  read create_workspace manage_members connect_resource : Action
  other_action : String → Action

unfoldable pub is_owner : Role → Bool
is_owner Role.owner = true
is_owner _ = false

unfoldable pub is_admin : Role → Bool
is_admin Role.admin = true
is_admin _ = false

unfoldable pub is_viewer : Role → Bool
is_viewer Role.viewer = true
is_viewer _ = false

unfoldable pub is_valid : Role → Bool
is_valid (Role.other_role text) = false
is_valid _ = true

abbrev allows_valid : Role → Action → Bool
allows_valid role Action.read = true
allows_valid role Action.create_workspace = is_owner role
allows_valid role Action.manage_members = is_owner role || is_admin role
allows_valid role Action.connect_resource = is_owner role || is_admin role
allows_valid role (Action.other_action text) = false

unfoldable pub allows : Role → Action → Bool
unfolding is_valid is_owner is_admin
allows role action = if is_valid role then allows_valid role action else false

-- One role is at least as privileged as another: owner, admin, member, viewer, any other.
pub data AtLeast : Role → Role → Type 0 where
  same : {a : Role} → AtLeast a a
  owner_first : {a : Role} → AtLeast Role.owner a
  admin_member : AtLeast Role.admin Role.member
  admin_viewer : AtLeast Role.admin Role.viewer
  member_viewer : AtLeast Role.member Role.viewer
  viewer_other : {a : Role} {text : String} → AtLeast a (Role.other_role text)

-- What a role allows, a role at least as privileged allows.
allows-AtLeast :
    {a b : Role} (action : Action) → AtLeast a b → allows b action ≡ true → allows a action ≡ true
unfolding allows is_valid is_owner is_admin
allows-AtLeast action same h = h
allows-AtLeast Action.read owner_first h = refl
allows-AtLeast Action.create_workspace owner_first h = refl
allows-AtLeast Action.manage_members owner_first h = refl
allows-AtLeast Action.connect_resource owner_first h = refl
allows-AtLeast {b = Role.other_role t} (Action.other_action x) owner_first h = h
allows-AtLeast {b = Role.owner} (Action.other_action x) owner_first h = h
allows-AtLeast {b = Role.admin} (Action.other_action x) owner_first h = h
allows-AtLeast {b = Role.member} (Action.other_action x) owner_first h = h
allows-AtLeast {b = Role.viewer} (Action.other_action x) owner_first h = h
allows-AtLeast Action.read admin_member h = refl
allows-AtLeast Action.read admin_viewer h = refl
allows-AtLeast Action.read member_viewer h = refl
allows-AtLeast _ admin_member h = cc
allows-AtLeast _ admin_viewer h = cc
allows-AtLeast _ member_viewer h = cc
allows-AtLeast _ viewer_other h = cc
