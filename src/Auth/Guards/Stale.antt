-- ===== src/Auth/Guards/Stale.antt =====
-- A token that was signed before its user was deactivated.
use nadbooks_backend.Prelude.{
  String, ◌≡◌, ◌≢◌, ◌⊎◌, refl, ap, ◌∙◌, true, false, some, arith, inl, inr, Bool-cases,
  Option-cases, find_first-update_self, find_first-fits,
}
use nadbooks_backend.Schema.{User, Role, Db}
use nadbooks_backend.Effects.{World, ok}
use nadbooks_backend.Users.Store.{find_user, set_user, update_user, has_id}
use nadbooks_backend.Users.Administration.{update_user_active_state, with_active}
use nadbooks_backend.Users.Roles.{is_admin}
use nadbooks_backend.Auth.Crypto.{JwtPayload}
use nadbooks_backend.Auth.Guards.{
  Jwt, jwt_guard, auth_guard, admin_auth, validate, handle_request, can_activate,
}

Role-cases : (role : Role) → (role ≡ Role.user) ⊎ ((role ≡ Role.admin) ⊎ (role ≡ Role.super_admin))
Role-cases Role.user = inl refl
Role-cases Role.admin = inr (inl refl)
Role-cases Role.super_admin = inr (inr refl)

find_deactivated :
    (id : String) (d : Db) (user : User)
    → find_user id d ≡ some user
    → find_user id (set_user id (with_active false) d) ≡ some (with_active false user)
unfolding find_user set_user
find_deactivated id d user found =
    find_first-update_self (has_id id) (with_active false) d.users user found
      (find_first-fits (has_id id) d.users user found)

deactivate_ok :
    (requester : Role) (id : String) (w w' : World) (answer : User)
    → update_user_active_state requester id false w ≡ (ok answer, w')
    → (user : User) × (find_user id w'.db ≡ some (with_active false user))
unfolding update_user_active_state update_user
deactivate_ok requester id w w' answer done = elim (Option-cases (find_user id w.db)) [
  | inl nobody ↦ absurd (ground (arith, done, nobody))
  | inr (user, found) ↦
      let there = find_deactivated id w.db user found in
      let same : w'.db ≡ set_user id (with_active false) w.db = ground (arith, done, found) in
      (user, ap (λ d. find_user id d) same ∙ there)
]

module _ ⦃jwt : Jwt⦄ where
  jwt_guard_refuses :
      (token : String) (payload : JwtPayload) (w : World) (user answer : User)
      → jwt.payload w.step token ≡ some payload
      → find_user payload.sub w.db ≡ some user
      → user.is_active ≡ false
      → (jwt_guard token w).0 ≢ ok answer
  unfolding jwt_guard validate handle_request
  jwt_guard_refuses token payload w user answer valid found inactive done =
      elim (Bool-cases user.is_verified) [
        | inl proved ↦ ground (arith, done, valid, found, inactive, proved)
        | inr unproved ↦ ground (arith, done, valid, found, inactive, unproved)
      ]

  admin_auth_admits :
      (token : String) (payload : JwtPayload) (w : World)
      → jwt.payload w.step token ≡ some payload
      → is_admin payload.role ≡ true
      → (admin_auth (some token) w).0 ≡ ok payload
  unfolding admin_auth auth_guard can_activate
  admin_auth_admits token payload w valid rules = elim (Role-cases payload.role) [
    | inl plain_user ↦ absurd (ground (arith, rules, plain_user))
    | inr (inl rules') ↦ ground (arith, valid, rules')
    | inr (inr rules') ↦ ground (arith, valid, rules')
  ]

  -- After a user was deactivated, a token of the user that is still valid is refused by JwtGuard,
  -- but AuthGuard admits it, and the routes of administrators do so too if the token names that
  -- role.
  pub deactivated_admitted :
      (requester : Role) (id token : String) (payload : JwtPayload) (w w' : World) (answer : User)
      → update_user_active_state requester id false w ≡ (ok answer, w')
      → jwt.payload w'.step token ≡ some payload
      → payload.sub ≡ id
      → ((user : User) → (jwt_guard token w').0 ≢ ok user)
        × ((auth_guard (some token) w').0 ≡ ok payload)
        × (is_admin payload.role ≡ true → (admin_auth (some token) w').0 ≡ ok payload)
  unfolding auth_guard
  deactivated_admitted requester id token payload w w' answer done valid own =
      let (user, found) = deactivate_ok requester id w w' answer done in
      let found' = ap (λ j. find_user j w'.db) own ∙ found in
      (
        λ other.
            jwt_guard_refuses token payload w' (with_active false user) other valid found' refl,
        ground (arith, valid),
        admin_auth_admits token payload w' valid,
      )
