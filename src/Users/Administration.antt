-- ===== src/Users/Administration.antt =====
-- What administrators do with users in src/users/users.service.ts, beside the roles.
use nadbooks_backend.Prelude.{
  ℕ, String, Bool, ◌==◌, ◌&&◌, ◌||◌, Option, none, some, true, List, find_many, page, if◌then◌else◌,
}
use nadbooks_backend.Schema.{User, Role, same_role}
use nadbooks_backend.Effects.{
  Action, main, not_found, unauthorized, gets, or_throw, ◌>>=◌, ◌>>◌, throw_if,
}
use nadbooks_backend.Users.Store.{find_user, update_user}
use nadbooks_backend.Users.Roles.{is_admin}

abbrev pub with_active : Bool → User → User
with_active active user = record user { is_active = active }

abbrev pub with_verified : Bool → User → User
with_verified verify user = record user { is_verified = verify }

unfoldable pub find_user_by_id : String → Action User
find_user_by_id id =
    gets (λ w. find_user id w.db) >>= λ user. or_throw user (not_found "User not found")

-- What an ADMIN may not do.
abbrev pub may_not : Role → Role → Bool
may_not Role.admin target_role = is_admin target_role
may_not _ target_role = Bool.false

unfoldable pub update_user_active_state : Role → String → Bool → Action User
unfolding update_user
update_user_active_state requester_role id activate = do
  target ← or_throw (← gets (λ w. find_user id w.db)) (not_found "User not found")
  throw_if (may_not requester_role target.role)
      (unauthorized "Admins cannot update status of other Admins")
  update_user id (with_active activate) main

unfoldable pub update_user_verification : String → Bool → Action User
unfolding update_user
update_user_verification id verify = update_user id (with_verified verify) main

-- `contains` of a text column is the database's.
abbrev matches : (String → String → Bool) → String → User → Bool
matches contains search user =
    contains user.username search
    || contains user.email search
    || contains user.first_name search
    || contains user.last_name search

abbrev of_role : Option Role → User → Bool
of_role none user = true
of_role (some role) user = same_role user.role role

abbrev of_search : (String → String → Bool) → Option String → User → Bool
of_search contains none user = true
of_search contains (some search) user = if search == "" then true else matches contains search user

unfoldable pub get_users :
    (String → String → Bool) → ℕ → ℕ → Option String → Option Role → Action (List User)
get_users contains limit skip search role = gets (λ w.
    page (some limit) skip
      (find_many (λ user. of_role role user && of_search contains search user) w.db.users))
