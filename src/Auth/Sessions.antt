-- ===== src/Auth/Sessions.antt =====
-- Refresh tokens of src/auth/auth.service.ts: issue, rotation, logout and revocation by epochs.
pub mod Keys
pub mod Rotation
pub mod Revocation
pub mod Forever
pub mod Erasure
use Prim.Native.String
use nadbooks_backend.Prelude.{
  ℕ, suc, zero, String, Bool, true, false, ◌&&◌, not, Option, none, some, eqb, if◌then◌else◌,
}
use nadbooks_backend.Schema.{User}
use nadbooks_backend.Effects.{
  World, Env, Value, Session, Action, Void, count, session, code_entry, text, unauthorized, pure,
  throw, gets, or_throw, ask, ◌>>=◌, ◌>>◌, throw_if,
}
use nadbooks_backend.Redis.{get, set, del, incr, as_count}
use nadbooks_backend.Users.Store.{find_user}
use nadbooks_backend.Auth.Crypto.{Crypto, payload_of}

unfoldable pub token_key : String → String
token_key token = String.◌++◌ "refresh:" token

unfoldable pub user_epoch_key : String → String
user_epoch_key user_id = String.◌++◌ "refresh:epoch:user:" user_id

abbrev pub global_epoch_key : String
global_epoch_key = "refresh:epoch:global"

-- What `getJSON` of a token's key gives: nothing (0 is falsy too), a session, or a value that has
-- no `userId` and no epochs.
pub data Stored : Type 0 where
  missing other : Stored
  known : Session → Stored

abbrev pub as_session : Option Value → Stored
as_session none = missing
as_session (some (count zero)) = missing
as_session (some (session s)) = known s
as_session (some _) = other

-- `a === b` on epochs; NaN and null equal none.
abbrev pub same_epoch : Option ℕ → Option ℕ → Bool
same_epoch (some a) (some b) = eqb a b
same_epoch _ _ = false

pub record Tokens : Type 0 where
  pub access_token : String
  pub refresh_token : String

module _ ⦃env : Env⦄ where
  unfoldable pub get_user_epoch : String → Action (Option ℕ)
  unfolding get user_epoch_key
  get_user_epoch user_id = do v ← get (user_epoch_key user_id); pure (as_count v)

  unfoldable pub get_global_epoch : Action (Option ℕ)
  unfolding get
  get_global_epoch = do v ← get global_epoch_key; pure (as_count v)

  unfoldable pub revoke_user_sessions : String → Action String
  unfolding incr
  revoke_user_sessions user_id = do
    n ← incr (user_epoch_key user_id)
    pure "All sessions for this user have been revoked"

  unfoldable pub revoke_all_sessions : Action String
  unfolding incr
  revoke_all_sessions = do
    n ← incr global_epoch_key
    pure "All sessions across all users have been revoked"

unfoldable pub logout : String → Action String
unfolding del
logout token = do del (token_key token); pure "Logged out successfully"

module _ ⦃env : Env⦄ ⦃crypto : Crypto⦄ where
  unfoldable pub generate_refresh_token : String → Action String
  unfolding get_user_epoch get_global_epoch set
  generate_refresh_token user_id = do
    token ← ask env.random
    user_epoch ← get_user_epoch user_id
    global_epoch ← get_global_epoch
    set (token_key token)
        (session
          (record { user_id = user_id; user_epoch = user_epoch; global_epoch = global_epoch }))
        crypto.refresh_token_ttl
    pure token

  -- Signs an access token for the user and issues a refresh token.
  unfoldable pub issue_tokens : User → Action Tokens
  unfolding generate_refresh_token
  issue_tokens user = do
    access ← ask (λ n. crypto.sign n (payload_of user))
    token ← generate_refresh_token user.id
    pure (record { access_token = access; refresh_token = token })

  -- `refresh` once the token is known to hold a session of the current epochs.
  unfoldable pub rotate : String → Session → Action Tokens
  unfolding issue_tokens del
  rotate token stored = do
    del (token_key token)
    user ← or_throw (← gets (λ w. find_user stored.user_id w.db)) (unauthorized "User not found")
    issue_tokens user

  unfoldable pub revoked : String → Action Tokens
  unfolding del
  revoked token = do del (token_key token); throw (unauthorized "Session has been revoked")

  -- A value without a `userId` has epochs that equal no number, so it counts as revoked.
  unfoldable pub refresh_stored : String → Stored → Action Tokens
  unfolding rotate revoked get_user_epoch get_global_epoch
  refresh_stored token missing = throw (unauthorized "Invalid or expired refresh token")
  refresh_stored token other = revoked token
  refresh_stored token (known stored) = do
    user_epoch ← get_user_epoch stored.user_id
    global_epoch ← get_global_epoch
    if same_epoch stored.user_epoch user_epoch && same_epoch stored.global_epoch global_epoch
        then rotate token stored
        else revoked token

  unfoldable pub refresh : String → Action Tokens
  unfolding get refresh_stored
  refresh token = do v ← get (token_key token); refresh_stored token (as_session v)
