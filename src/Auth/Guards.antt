-- ===== src/Auth/Guards.antt =====
-- Who gets past the guards: src/auth/auth.guard.ts, src/auth/guards and src/auth/strategies. Passport
-- finds the token in the request, verifies it, and hands the payload to the strategy.
pub mod Stale
use nadbooks_backend.Prelude.{
  ℕ, String, Bool, true, false, ◌||◌, not, Option, none, some, List, [], ◌∷◌, if◌then◌else◌,
}
use nadbooks_backend.Schema.{User, Role, same_role}
use nadbooks_backend.Effects.{
  Action, external, forbidden, unauthorized, pure, throw, gets, or_throw, ask, ◌>>=◌, ◌>>◌,
  throw_if,
}
use nadbooks_backend.Users.Store.{find_user}
use nadbooks_backend.Auth.Crypto.{JwtPayload}

-- The payload of a token whose signature and term hold at the step at which it is verified.
pub record Jwt : Type 0 where
  pub payload : ℕ → String → Option JwtPayload

-- `JWTStrategy.validate`: the row of the user, as it is now.
unfoldable pub validate : JwtPayload → Action (Option User)
validate payload = gets (λ w. find_user payload.sub w.db)

-- `JwtGuard.handleRequest`
unfoldable pub handle_request : Option User → Action User
handle_request none = throw (forbidden "Invalid or expired token")
handle_request (some user) = do
  throw_if (not user.is_verified) (forbidden "Email verification required")
  throw_if (not user.is_active) (forbidden "Account is deactivated")
  pure user

abbrev validate_opt : Option JwtPayload → Action (Option User)
validate_opt none = pure none
validate_opt (some payload) = validate payload

-- `RolesGuard.canActivate`: the roles that a route asks for, if it asks.
abbrev some_role : List Role → Role → Bool
some_role [] role = false
some_role (r ∷ rs) role = same_role role r || some_role rs role

unfoldable pub can_activate : Option (List Role) → Role → Bool
can_activate none role = true
can_activate (some roles) role = some_role roles role

module _ ⦃jwt : Jwt⦄ where
  -- A route under `JwtGuard`.
  unfoldable pub jwt_guard : String → Action User
  unfolding validate handle_request
  jwt_guard token = ask (λ n. jwt.payload n token) >>= validate_opt >>= handle_request

  -- A route under `AuthGuard`, which asks for a valid token only.
  unfoldable pub auth_guard : Option String → Action JwtPayload
  auth_guard none = throw (unauthorized "Unauthorized")
  auth_guard (some token) =
      ask (λ n. jwt.payload n token) >>= λ payload. or_throw payload (external "jwt")

  -- `@AdminAuth()`: AuthGuard, then RolesGuard, which sees the payload of the token.
  unfoldable pub admin_auth : Option String → Action JwtPayload
  unfolding auth_guard can_activate
  admin_auth token = auth_guard token >>= λ user.
      throw_if (not (can_activate (some (Role.admin ∷ Role.super_admin ∷ [])) user.role))
        (forbidden "Forbidden resource")
      >> pure user
