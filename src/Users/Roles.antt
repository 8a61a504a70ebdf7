-- ===== src/Users/Roles.antt =====
-- `updateUserRole` and `getRoleHistory` of src/users/users.service.ts. A new row stands first in its
-- table, so the history by `createdAt` descending keeps the order of the list.
pub mod Hierarchy
use nadbooks_backend.Prelude.{String, Bool, true, false, ◌==◌, ◌&&◌, not, List, ◌∷◌, find_many}
use nadbooks_backend.Schema.{Role, User, RoleChange, Db, same_role}
use nadbooks_backend.Effects.{
  World, Env, Action, Client, main, tx, unauthorized, not_found, pure, throw, gets, or_throw, ask,
  ◌>>=◌, ◌>>◌, throw_if, modify, transaction, read, write,
}
use nadbooks_backend.Users.Store.{find_user, update_user}

abbrev pub with_role : Role → User → User
with_role role user = record user { role = role }

abbrev pub is_admin : Role → Bool
is_admin Role.user = false
is_admin _ = true

abbrev pub changes_of : String → RoleChange → Bool
changes_of id change = change.user_id == id

unfoldable pub add_change : RoleChange → Db → Db
add_change change d = record d { role_changes = change ∷ d.role_changes }

module _ ⦃env : Env⦄ where
  -- `tx.roleChange.create`
  unfoldable pub record_change : String → Role → Role → String → Client → Action RoleChange
  record_change requester_id from_role to_role target_id c = do
    id ← ask env.random
    let change : RoleChange = record {
      id = id;
      from_role = from_role;
      to_role = to_role;
      changed_by_id = requester_id;
      user_id = target_id;
    }
    modify (λ w. write c (add_change change (read c w)) w)
    pure change

  -- The body of the transaction.
  unfoldable pub change_role : String → Role → Role → String → Action User
  unfolding update_user record_change
  change_role requester_id from_role new_role target_id = do
    user ← update_user target_id (with_role new_role) tx
    record_change requester_id from_role new_role target_id tx
    pure user

  -- What an ADMIN may not do.
  unfoldable pub check_hierarchy : Role → Role → Role → Action Unit
  check_hierarchy Role.admin target_role new_role = do
    throw_if (same_role new_role Role.super_admin)
        (unauthorized "Admins cannot create Super Admins")
    throw_if (is_admin target_role) (unauthorized "Admins cannot modify other Admins")
  check_hierarchy _ target_role new_role = pure tt

  -- What happens once the target is found.
  unfoldable pub change_target : String → Role → String → Role → User → Action User
  unfolding check_hierarchy change_role
  change_target requester_id requester_role target_id new_role target =
      check_hierarchy requester_role target.role new_role >>= λ done.
      transaction (change_role requester_id target.role new_role target_id)

  unfoldable pub update_user_role : String → Role → String → Role → Action User
  unfolding change_target
  update_user_role requester_id requester_role target_id new_role = do
    throw_if (not (is_admin requester_role)) (unauthorized "Insufficient permissions")
    target ← or_throw (← gets (λ w. find_user target_id w.db)) (not_found "User not found")
    change_target requester_id requester_role target_id new_role target

unfoldable pub get_role_history : String → Action (List RoleChange)
get_role_history user_id = gets (λ w. find_many (changes_of user_id) w.db.role_changes)
