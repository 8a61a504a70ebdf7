-- ===== src/Auth/Google.antt =====
-- Google accounts: `linkGoogleAccount` and `unlinkGoogleAccount` of src/auth/auth.service.ts, and
-- src/auth/strategies/google-token.strategy.ts. An id of Google is never the empty text.
use nadbooks_backend.Prelude.{
  ℕ, String, ◌==◌, not, Option, none, some, is_some, or_else, if◌then◌else◌,
}
use nadbooks_backend.Schema.{User}
use nadbooks_backend.Effects.{
  Env, Result, Action, main, not_found, conflict, bad_request, unauthorized, pure, throw, gets,
  or_throw, request, catch, ◌>>=◌, ◌>>◌, throw_if,
}
use nadbooks_backend.Users.Store.{find_user, find_other_by_google_id, update_user}
use nadbooks_backend.Auth.Crypto.{Crypto}

-- The claims of an ID token that the code reads.
pub record GoogleClaims : Type 0 where
  pub sub : String
  pub email : Option String
  pub given_name : Option String
  pub family_name : Option String

-- `verifyIdToken` and `getPayload` of google-auth-library, and `email.split('@')[0]`.
pub record Google : Type 0 where
  pub verify_id_token : ℕ → String → Result (Option GoogleClaims)
  pub local_part : String → String

-- The profile that the strategy makes.
pub record Profile : Type 0 where
  pub email : String
  pub given_name : String
  pub family_name : String
  pub provider : String
  pub provider_id : String

-- `!payload || !payload.email`
abbrev pub claimed : Option GoogleClaims → Option (GoogleClaims × String)
claimed none = none
claimed (some claims) = elim claims.email [
  | none ↦ none
  | some email ↦ if email == "" then none else some (claims, email)
]

abbrev pub with_google_id : Option String → User → User
with_google_id google_id user = record user { google_id = google_id }

module _ ⦃env : Env⦄ ⦃crypto : Crypto⦄ ⦃google : Google⦄ where
  -- The `try` block, whose `catch` answers every failure alike.
  unfoldable pub read_token : String → Action (GoogleClaims × String)
  read_token token =
      catch
        (request (λ n. google.verify_id_token n token) >>= λ claims.
          or_throw (claimed claims) (unauthorized "Invalid Google token payload"))
        (λ e. throw (unauthorized "Invalid Google token"))

  unfoldable pub link_claims : String → User → GoogleClaims × String → Action User
  unfolding update_user
  link_claims user_id user (claims, email) = do
    throw_if (not (crypto.to_lower_case email == crypto.to_lower_case user.email))
        (bad_request "Google account email must match your account email")
    taken ← gets (λ w. is_some (find_other_by_google_id claims.sub user_id w.db))
    throw_if taken (conflict "This Google account is already linked to another user")
    update_user user_id (with_google_id (some claims.sub)) main

  unfoldable pub link_google_account : String → String → Action User
  unfolding read_token link_claims
  link_google_account user_id token = do
    user ← or_throw (← gets (λ w. find_user user_id w.db)) (not_found "User not found")
    throw_if (is_some user.google_id) (conflict "Google account is already linked")
    read_token token >>= link_claims user_id user

  -- The strategy keeps the message of its own exception.
  unfoldable pub validate_google_token : Option String → Action Profile
  validate_google_token none = throw (unauthorized "Google ID token is required")
  validate_google_token (some token) = do
    throw_if (token == "") (unauthorized "Google ID token is required")
    claims ←
        catch (request (λ n. google.verify_id_token n token))
          (λ e. throw (unauthorized "Invalid Google token"))
    (payload, email) ← or_throw (claimed claims) (unauthorized "Invalid Google token payload")
    pure (record {
      email = email;
      given_name = or_else payload.given_name "";
      family_name = or_else payload.family_name "";
      provider = "google";
      provider_id = payload.sub;
    })

unfoldable pub unlink_google_account : String → Action String
unfolding update_user
unlink_google_account user_id = do
  user ← or_throw (← gets (λ w. find_user user_id w.db)) (not_found "User not found")
  throw_if (not (is_some user.google_id)) (bad_request "No Google account is currently linked")
  throw_if (not (is_some user.password_hash)) (
      bad_request
        "Cannot unlink Google account. Please set a password first using the set-password endpoint.")
  update_user user_id (with_google_id none) main
  pure "Google account unlinked successfully"
