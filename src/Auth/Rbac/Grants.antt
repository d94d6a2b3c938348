-- ===== src/Auth/Rbac/Grants.antt =====
-- Whoever is not an administrator has only the permissions that some calls gave.
use sunbolt.Base.{
  ℕ, ◌≡◌, ◌⊎◌, inl, inr, Bool, true, false, ◌&&◌, ◌||◌, List, [], ◌∷◌, ◌++◌, Text, text_keys,
  nat_keys, text_eq, nat_eq, nat_eq_iff, if◌then◌else◌, ok, any, arith, Bool-cases,
}
use sunbolt.Base.Dict.{Dict, lookup, lookup-insert}
use sunbolt.Auth.{User, can_open_terminal, admin, operator, viewer}
use sunbolt.Auth.Rbac.{
  RbacStore, Permission, WorkspaceMember, create_workspace, create_role, grant_role_permission,
  add_workspace_member, map_node_to_workspace, user_has_workspace_permission, terminal_open,
  terminal_reattach, user_has_control_plane_permission, permission_str, listed, push, is_admin,
  role_has,
}

pub data RbacCall : Type 0 where
  workspace_made role_made : Text → RbacCall
  granted : ℕ → Permission → RbacCall
  joined : ℕ → ℕ → ℕ → RbacCall
  mapped : ℕ → Text → RbacCall

unfoldable pub perform : RbacCall → RbacStore → RbacStore
perform (workspace_made name) s = (create_workspace name s).1
perform (role_made name) s = (create_role name s).1
perform (granted role_id permission) s = (grant_role_permission role_id permission s).1
perform (joined workspace_id user_id role_id) s =
    (add_workspace_member workspace_id user_id role_id s).1
perform (mapped workspace_id node_id) s = (map_node_to_workspace workspace_id node_id s).1

-- Calls in the order of their arrival, the last one first.
unfoldable pub perform_all : List RbacCall → RbacStore → RbacStore
perform_all [] s = s
perform_all (c ∷ calls) s = perform c (perform_all calls s)

-- A call of `grant_role_permission` for this role and permission.
abbrev pub is_grant : ℕ → Permission → RbacCall → Bool
is_grant role_id permission (granted r p) =
    nat_eq r role_id && text_eq (permission_str p) (permission_str permission)
is_grant role_id permission _ = false

-- A call of `add_workspace_member` for this workspace, user and role.
abbrev pub is_join : ℕ → ℕ → ℕ → RbacCall → Bool
is_join workspace_id user_id role_id (joined w u r) =
    nat_eq w workspace_id && (nat_eq u user_id && nat_eq r role_id)
is_join workspace_id user_id role_id _ = false

abbrev pub has_member : ℕ → ℕ → ℕ → RbacStore → Bool
has_member workspace_id user_id role_id s =
    any (λ m. nat_eq m.user_id user_id && nat_eq m.role_id role_id)
      (listed workspace_id s.workspace_members_by_workspace_id)

any-snoc :
    {A : Type 0} (p : A → Bool) (xs : List A) (x : A) → any p (xs ++ x ∷ []) ≡ (any p xs || p x)
any-snoc p [] x = ground arith
any-snoc p (y ∷ xs) x = ground (arith, any-snoc p xs x)

any-push :
    {A : Type 0} (p : A → Bool) (j k : ℕ) (x : A) (d : Dict ℕ (List A))
    → any p (listed k (push j x d)) ≡ (any p (listed k d) || (nat_eq j k && p x))
any-push p j k x d =
    ground
      (arith, lookup-insert j k (listed j d ++ x ∷ []) d, any-snoc p (listed j d) x, nat_eq_iff j k)

role_has-perform :
    (role_id : ℕ) (p : Permission) (c : RbacCall) (s : RbacStore)
    → role_has role_id p (perform c s) ≡ true
    → (role_has role_id p s ≡ true) ⊎ (is_grant role_id p c ≡ true)
unfolding perform create_workspace create_role grant_role_permission add_workspace_member
    map_node_to_workspace
role_has-perform role_id p (workspace_made name) s h = ground arith
role_has-perform role_id p (role_made name) s h = ground arith
role_has-perform role_id p (granted r q) s h = ground (
  arith,
  any-push (λ g. text_eq g.permission (permission_str p)) r role_id
      (record { role_id = r; permission = permission_str q }) s.role_permissions_by_role_id,
)
role_has-perform role_id p (joined w u r) s h = ground arith
role_has-perform role_id p (mapped w n) s h = ground arith

has_member-perform :
    (w u r : ℕ) (c : RbacCall) (s : RbacStore)
    → has_member w u r (perform c s) ≡ true
    → (has_member w u r s ≡ true) ⊎ (is_join w u r c ≡ true)
unfolding perform create_workspace create_role grant_role_permission add_workspace_member
    map_node_to_workspace
has_member-perform w u r (workspace_made name) s h = ground arith
has_member-perform w u r (role_made name) s h = ground arith
has_member-perform w u r (granted r' q) s h = ground arith
has_member-perform w u r (joined w' u' r') s h = ground (
  arith,
  any-push (λ m. nat_eq m.user_id u && nat_eq m.role_id r) w' w
      (record { workspace_id = w'; user_id = u'; role_id = r' })
      s.workspace_members_by_workspace_id,
)
has_member-perform w u r (mapped w' n) s h = ground arith

-- No memberships and no grants yet.
abbrev pub IsFresh : RbacStore → Type 0
IsFresh s = (s.workspace_members_by_workspace_id ≡ []) × (s.role_permissions_by_role_id ≡ [])

role_has-perform_all :
    (role_id : ℕ) (p : Permission) (calls : List RbacCall) (s : RbacStore)
    → IsFresh s
    → role_has role_id p (perform_all calls s) ≡ true
    → any (is_grant role_id p) calls ≡ true
unfolding perform_all
role_has-perform_all role_id p [] s fresh h = unfold lookup in absurd (ground arith)
role_has-perform_all role_id p (c ∷ calls) s fresh h =
    elim (role_has-perform role_id p c (perform_all calls s) h) [
      | inl before ↦ ground (arith, role_has-perform_all role_id p calls s fresh before)
      | inr now ↦ ground arith
    ]

has_member-perform_all :
    (w u r : ℕ) (calls : List RbacCall) (s : RbacStore)
    → IsFresh s
    → has_member w u r (perform_all calls s) ≡ true
    → any (is_join w u r) calls ≡ true
unfolding perform_all
has_member-perform_all w u r [] s fresh h = unfold lookup in absurd (ground arith)
has_member-perform_all w u r (c ∷ calls) s fresh h =
    elim (has_member-perform w u r c (perform_all calls s) h) [
      | inl before ↦ ground (arith, has_member-perform_all w u r calls s fresh before)
      | inr now ↦ ground arith
    ]

-- Some member entry of the user has a role with the permission.
some_role :
    (u : ℕ) (q : ℕ → Bool) (members : List WorkspaceMember)
    → any (λ m. nat_eq m.user_id u && q m.role_id) members ≡ true
    → (r : ℕ) × (any (λ m. nat_eq m.user_id u && nat_eq m.role_id r) members ≡ true) × (q r ≡ true)
some_role u q [] h = cc
some_role u q (m ∷ members) h = elim (Bool-cases (nat_eq m.user_id u && q m.role_id)) [
  | inl here ↦ (m.role_id, ground arith, ground arith)
  | inr there ↦
      let (r, found, good) = some_role u q members (ground arith) in (r, ground arith, good)
]

-- After any calls on a store without memberships and grants, a user who is not an administrator has a
-- permission in a workspace only if calls added the user to that workspace with some role and granted
-- that role that permission.
pub user_has_workspace_permission-granted :
    (calls : List RbacCall) (s : RbacStore) (user : User) (w : ℕ) (p : Permission)
    → IsFresh s
    → is_admin user ≡ false
    → user_has_workspace_permission user w p (perform_all calls s) ≡ ok true
    → (r : ℕ) × (any (is_join w user.id r) calls ≡ true) × (any (is_grant r p) calls ≡ true)
unfolding user_has_workspace_permission
user_has_workspace_permission-granted calls s user w p fresh plain h =
    let (r, member, good) =
      some_role user.id (λ r. role_has r p (perform_all calls s))
        (listed w (perform_all calls s).workspace_members_by_workspace_id) (ground arith) in
    (
      r,
      has_member-perform_all w user.id r calls s fresh member,
      role_has-perform_all r p calls s fresh good,
    )

-- The permissions to open and to reattach a terminal.
abbrev pub is_terminal_entry : Permission → Bool
is_terminal_entry terminal_open = true
is_terminal_entry terminal_reattach = true
is_terminal_entry _ = false

-- For any user the control-plane permissions to open and to reattach a terminal are both what
-- `can_open_terminal` answers, and every other one is held by administrators only.
pub control_plane-can_open_terminal :
    (user : User) (p : Permission)
    → user_has_control_plane_permission user p
      ≡ (if is_terminal_entry p then can_open_terminal user else is_admin user)
unfolding user_has_control_plane_permission can_open_terminal
control_plane-can_open_terminal user p =
    elim user.role
      as (λ r.
        (elim r [
          | admin ↦ true
          | operator ↦ elim p [ terminal_open ↦ true | terminal_reattach ↦ true | _ ↦ false ]
          | viewer ↦ false
        ])
        ≡ (if is_terminal_entry p
            then elim r [ viewer ↦ false | _ ↦ true ]
            else elim r [ admin ↦ true | _ ↦ false ])) [
              | admin ↦ ground arith
              | operator ↦ ground arith
              | viewer ↦ ground arith
            ]
