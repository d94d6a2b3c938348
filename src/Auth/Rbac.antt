-- ===== src/Auth/Rbac.antt =====
-- crates/sunbolt-auth/src (rbac.rs and the RBAC methods of lib.rs): workspaces, their roles, members
-- and nodes, and who may do what.
use sunbolt.Base.{
  ◌%◌, ◌^◌, ℕ, ◌+◌, ◌++◌, Bool, true, false, not, ◌&&◌, ◌||◌, none, some, List, [], ◌∷◌, Text, text,
  text_keys, nat_keys, text_eq, nat_eq, if◌then◌else◌, Result, ok, err, any, length,
}
use sunbolt.Base.Trim.{trim}
use sunbolt.Base.Dict.{Dict, lookup, insert, contains}
use sunbolt.Auth.{
  User, StoredUser, AuthError, admin, operator, viewer, store_unavailable, invalid_rbac_record,
  rbac_record_not_found,
}
pub mod Grants
mod Tests

pub data Permission : Type 0 where
  terminal_open terminal_reattach terminal_close terminal_terminate : Permission
  audit_view node_view node_register node_revoke : Permission
  node_credential_rotate user_manage role_manage : Permission

-- `Permission::as_str`
unfoldable pub permission_str : Permission → Text
permission_str terminal_open = text "terminal.open"
permission_str terminal_reattach = text "terminal.reattach"
permission_str terminal_close = text "terminal.close"
permission_str terminal_terminate = text "terminal.terminate"
permission_str audit_view = text "audit.view"
permission_str node_view = text "node.view"
permission_str node_register = text "node.register"
permission_str node_revoke = text "node.revoke"
permission_str node_credential_rotate = text "node.credential.rotate"
permission_str user_manage = text "user.manage"
permission_str role_manage = text "role.manage"

pub record Workspace : Type 0 where
  pub id : ℕ
  pub name : Text

pub record Role : Type 0 where
  pub id : ℕ
  pub name : Text

pub record WorkspaceMember : Type 0 where
  pub workspace_id : ℕ
  pub user_id : ℕ
  pub role_id : ℕ

pub record RolePermission : Type 0 where
  pub role_id : ℕ
  pub permission : Text

pub record WorkspaceNode : Type 0 where
  pub workspace_id : ℕ
  pub node_id : Text

-- The part of `AuthStore` that these methods use, with the counters of roles and workspaces and
-- whether the lock is poisoned.
pub record RbacStore : Type 0 where
  pub users_by_id : Dict ℕ StoredUser
  pub workspaces_by_id : Dict ℕ Workspace
  pub roles_by_id : Dict ℕ Role
  pub role_permissions_by_role_id : Dict ℕ (List RolePermission)
  pub workspace_members_by_workspace_id : Dict ℕ (List WorkspaceMember)
  pub workspace_nodes_by_node_id : Dict Text WorkspaceNode
  pub next_role_id : ℕ
  pub next_workspace_id : ℕ
  pub poisoned : Bool

abbrev unavailable : AuthError
unavailable = store_unavailable (text "rbac")

abbrev pub is_blank : Text → Bool
is_blank name = nat_eq (length (trim name)) 0

-- What a map of lists holds for a key, and `entry(key).or_default().push(x)`.
abbrev pub listed : {A : Type 0} → ℕ → Dict ℕ (List A) → List A
listed k d = elim (lookup k d) [ none ↦ [] | some xs ↦ xs ]

abbrev pub push : {A : Type 0} → ℕ → A → Dict ℕ (List A) → Dict ℕ (List A)
push k x d = insert k (listed k d ++ x ∷ []) d

-- The counter moves on before the lock is taken.
unfoldable pub create_workspace : Text → RbacStore → Result AuthError Workspace × RbacStore
create_workspace name s =
    if is_blank name
    then (err invalid_rbac_record, s)
    else let workspace : Workspace = record { id = s.next_workspace_id; name = trim name } in
      let counted = record s { next_workspace_id = (s.next_workspace_id + 1) % 2 ^ 64 } in
      if s.poisoned then (err unavailable, counted) else (
        ok workspace,
        record counted { workspaces_by_id = insert workspace.id workspace s.workspaces_by_id },
      )

unfoldable pub create_role : Text → RbacStore → Result AuthError Role × RbacStore
create_role name s =
    if is_blank name
    then (err invalid_rbac_record, s)
    else let role : Role = record { id = s.next_role_id; name = trim name } in
      let counted = record s { next_role_id = (s.next_role_id + 1) % 2 ^ 64 } in
      if s.poisoned
      then (err unavailable, counted)
      else (ok role, record counted { roles_by_id = insert role.id role s.roles_by_id })

unfoldable pub grant_role_permission :
    ℕ → Permission → RbacStore → Result AuthError RolePermission × RbacStore
grant_role_permission role_id permission s =
    if s.poisoned
    then (err unavailable, s)
    else if not (contains role_id s.roles_by_id)
    then (err rbac_record_not_found, s)
    else let granted : RolePermission = record {
      role_id = role_id;
      permission = permission_str permission;
    } in
      (
        ok granted,
        record s {
          role_permissions_by_role_id = push role_id granted s.role_permissions_by_role_id;
        },
      )

unfoldable pub add_workspace_member :
    ℕ → ℕ → ℕ → RbacStore → Result AuthError WorkspaceMember × RbacStore
add_workspace_member workspace_id user_id role_id s =
    if s.poisoned
    then (err unavailable, s)
    else if not (contains workspace_id s.workspaces_by_id)
        || not (contains user_id s.users_by_id)
        || not (contains role_id s.roles_by_id)
    then (err rbac_record_not_found, s)
    else let member : WorkspaceMember = record {
      workspace_id = workspace_id;
      user_id = user_id;
      role_id = role_id;
    } in
      (
        ok member,
        record s {
          workspace_members_by_workspace_id =
              push workspace_id member s.workspace_members_by_workspace_id;
        },
      )

unfoldable pub map_node_to_workspace :
    ℕ → Text → RbacStore → Result AuthError WorkspaceNode × RbacStore
map_node_to_workspace workspace_id node_id s =
    if is_blank node_id
    then (err invalid_rbac_record, s)
    else if s.poisoned
    then (err unavailable, s)
    else if not (contains workspace_id s.workspaces_by_id)
    then (err rbac_record_not_found, s)
    else let mapped : WorkspaceNode = record { workspace_id = workspace_id; node_id = node_id } in
      (
        ok mapped,
        record s {
          workspace_nodes_by_node_id = insert node_id mapped s.workspace_nodes_by_node_id;
        },
      )

abbrev pub is_admin : User → Bool
is_admin user = elim user.role [ admin ↦ true | _ ↦ false ]

-- One member's role has the permission.
abbrev pub role_has : ℕ → Permission → RbacStore → Bool
role_has role_id permission s =
    any (λ granted. text_eq granted.permission (permission_str permission))
      (listed role_id s.role_permissions_by_role_id)

unfoldable pub user_has_workspace_permission :
    User → ℕ → Permission → RbacStore → Result AuthError Bool
user_has_workspace_permission user workspace_id permission s =
    if is_admin user
    then ok true
    else if s.poisoned
    then err unavailable
    else ok (
        any (λ member. nat_eq member.user_id user.id && role_has member.role_id permission s)
          (listed workspace_id s.workspace_members_by_workspace_id))

-- The lock is let go in between: `later` is the store when it is taken again.
unfoldable pub user_has_node_permission :
    User → Text → Permission → RbacStore → RbacStore → Result AuthError Bool
user_has_node_permission user node_id permission s later =
    if is_admin user
    then ok true
    else if s.poisoned
    then err unavailable
    else elim (lookup node_id s.workspace_nodes_by_node_id) [
      | none ↦ ok false
      | some mapped ↦ user_has_workspace_permission user mapped.workspace_id permission later
    ]

pub user_has_control_plane_permission : User → Permission → Bool
user_has_control_plane_permission user permission = elim user.role [
  | admin ↦ true
  | operator ↦ elim permission [ terminal_open ↦ true | terminal_reattach ↦ true | _ ↦ false ]
  | viewer ↦ false
]
