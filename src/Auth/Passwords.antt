-- ===== src/Auth/Passwords.antt =====
-- `changePassword` and `setPassword` of src/auth/auth.service.ts.
pub mod RoundTrip
use nadbooks_backend.Prelude.{ℕ, String, Bool, not, Option, none, some, is_some}
use nadbooks_backend.Schema.{User}
use nadbooks_backend.Effects.{
  World, Env, Action, main, not_found, bad_request, unauthorized, pure, throw, gets, or_throw, ask,
  ◌>>=◌, ◌>>◌, throw_if,
}
use nadbooks_backend.Users.Store.{find_user, update_user}
use nadbooks_backend.Auth.Crypto.{Crypto}
use nadbooks_backend.Auth.Sessions.{Tokens, issue_tokens}

abbrev pub with_password : String → User → User
with_password hash user = record user { password_hash = some hash }

module _ ⦃env : Env⦄ ⦃crypto : Crypto⦄ where
  -- The tokens and the answer are made of the row as it was read.
  unfoldable pub store_password : User → String → Action (User × Tokens)
  unfolding update_user issue_tokens
  store_password user password = do
    hash ← ask (λ n. crypto.hash n password)
    update_user user.id (with_password hash) main
    tokens ← issue_tokens user
    pure (user, tokens)

  unfoldable pub change_password : String → String → String → Action (User × Tokens)
  unfolding store_password
  change_password user_id current_password new_password = do
    user ← or_throw (← gets (λ w. find_user user_id w.db)) (not_found "User not found")
    hash ←
        or_throw user.password_hash
          (bad_request "This account cannot change password (logged in via social)")
    throw_if (not (crypto.verify hash current_password))
        (unauthorized "Current password is incorrect")
    store_password user new_password

  unfoldable pub set_password : String → String → Action (User × Tokens)
  unfolding store_password
  set_password user_id password = do
    user ← or_throw (← gets (λ w. find_user user_id w.db)) (not_found "User not found")
    throw_if (is_some user.password_hash)
        (bad_request "This account already has a password. Use change password instead.")
    store_password user password
