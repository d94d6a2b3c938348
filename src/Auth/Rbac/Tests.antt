-- ===== src/Auth/Rbac/Tests.antt =====
-- A viewer who joins a workspace as an operator of it.
use sunbolt.Base.{ℕ, ◌≡◌, refl, true, false, List, [], ◌∷◌, text, ok, any, nat_keys, if◌then◌else◌}
use sunbolt.Base.Trim.{trim, trim_start, trim_end}
use sunbolt.Base.Dict.{lookup, insert, remove, contains}
use sunbolt.Auth.{User, viewer, can_open_terminal}
use sunbolt.Auth.Rbac.{
  RbacStore, permission_str, terminal_open, audit_view, create_workspace, create_role,
  grant_role_permission, add_workspace_member, map_node_to_workspace, user_has_workspace_permission,
  user_has_node_permission, user_has_control_plane_permission,
}
use sunbolt.Auth.Rbac.Grants.{
  RbacCall, workspace_made, role_made, granted, joined, mapped, perform, perform_all, is_grant,
  is_join, is_terminal_entry, user_has_workspace_permission-granted,
  control_plane-can_open_terminal,
}

abbrev ann : User
ann = record { id = 7; email = text "ann@b.c"; role = viewer }

abbrev start : RbacStore
start = record {
  users_by_id = (7, record { user = ann; password_hash = [] }) ∷ [];
  workspaces_by_id = [];
  roles_by_id = [];
  role_permissions_by_role_id = [];
  workspace_members_by_workspace_id = [];
  workspace_nodes_by_node_id = [];
  next_role_id = 1;
  next_workspace_id = 1;
  poisoned = false;
}

abbrev calls : List RbacCall
calls =
    mapped 1 (text "n")
    ∷ joined 1 7 1
    ∷ granted 1 terminal_open
    ∷ role_made (text "operators")
    ∷ workspace_made (text "w")
    ∷ []

opens : user_has_workspace_permission ann 1 terminal_open (perform_all calls start) ≡ ok true
unfolding perform_all perform create_workspace create_role grant_role_permission
    add_workspace_member map_node_to_workspace user_has_workspace_permission lookup insert remove
    contains trim trim_start trim_end permission_str
opens = refl

opens_on_node :
    user_has_node_permission ann
      (text "n")
      audit_view
      (perform_all calls start)
      (perform_all calls start)
    ≡ ok false
unfolding perform_all perform create_workspace create_role grant_role_permission
    add_workspace_member map_node_to_workspace user_has_workspace_permission
    user_has_node_permission lookup insert remove contains trim permission_str trim_start trim_end
opens_on_node = refl

user_has_workspace_permission-granted_example :
    (r : ℕ) × (any (is_join 1 7 r) calls ≡ true) × (any (is_grant r terminal_open) calls ≡ true)
user_has_workspace_permission-granted_example =
    user_has_workspace_permission-granted calls start ann 1 terminal_open (refl, refl) refl opens

control_plane-can_open_terminal_test :
    user_has_control_plane_permission ann terminal_open
    ≡ (if is_terminal_entry terminal_open then can_open_terminal ann else false)
control_plane-can_open_terminal_test = control_plane-can_open_terminal ann terminal_open
