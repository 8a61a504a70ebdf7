-- ===== src/Auth/Accounts.antt =====
-- `register`, `login` and `handleOauthLogin` of src/auth/auth.service.ts. A hash and an id of Google
-- are never the empty text.
pub mod Register
pub mod Emails
pub mod Takeover
pub mod RoundTrip
pub mod Login
use Prim.Native.String
use nadbooks_backend.Prelude.{
  String, Bool, true, false, ◌==◌, ◌&&◌, not, Option, none, some, is_some, if◌then◌else◌,
}
use nadbooks_backend.Schema.{User, Role}
use nadbooks_backend.Effects.{
  Env, Action, Void, main, bad_request, unauthorized, unique_violation, pure, throw, gets, or_throw,
  ask, ◌>>=◌, ◌>>◌, throw_if,
}
use nadbooks_backend.Email.{send_email}
use nadbooks_backend.Users.Store.{find_by_email, find_other_by_google_id, update_user, create_user}
use nadbooks_backend.Auth.Crypto.{Crypto}
use nadbooks_backend.Auth.Sessions.{Tokens, issue_tokens}
use nadbooks_backend.Auth.Codes.{
  verify_key, fresh_code, store_code, mail_of, queue_verification_email, verified,
}
use nadbooks_backend.Auth.Google.{Google, Profile, with_google_id}

pub record CreateUser : Type 0 where
  pub first_name : String
  pub last_name : String
  pub email : String
  pub username : String
  pub password : String

-- What an answer says of the user; a field that it lacks is `none`.
pub record UserResponse : Type 0 where
  pub id : String
  pub username : String
  pub first_name : String
  pub last_name : String
  pub email : String
  pub role : Role
  pub is_verified : Option Bool
  pub google_id : Option String
  pub has_password : Bool

pub record SignedIn : Type 0 where
  pub tokens : Tokens
  pub user : UserResponse

abbrev pub response : User → Option Bool → Option String → UserResponse
response user is_verified google_id = record {
  id = user.id;
  username = user.username;
  first_name = user.first_name;
  last_name = user.last_name;
  email = user.email;
  role = user.role;
  is_verified = is_verified;
  google_id = google_id;
  has_password = is_some user.password_hash;
}

-- The row of `register`, with the defaults of the other columns.
abbrev pub registered : CreateUser → String → String → User
registered dto hash id = record {
  id = id;
  first_name = dto.first_name;
  last_name = dto.last_name;
  username = dto.username;
  email = dto.email;
  password_hash = some hash;
  role = Role.user;
  is_active = true;
  is_verified = false;
  google_id = none;
  avatar_url = none;
  pin_hash = none;
  pin_changed_at = none;
}

-- `name || otherwise`
abbrev pub or_name : String → String → String
or_name name otherwise = if name == "" then otherwise else name

abbrev pub google_username : String → String → String
google_username name suffix = String.◌++◌ name (String.◌++◌ "_" suffix)

abbrev pub from_google : Profile → String → String → User
from_google profile username id = record {
  id = id;
  first_name = or_name profile.given_name "User";
  last_name = profile.family_name;
  username = username;
  email = profile.email;
  password_hash = none;
  role = Role.user;
  is_active = true;
  is_verified = true;
  google_id = some profile.provider_id;
  avatar_url = none;
  pin_hash = none;
  pin_changed_at = none;
}

module _ ⦃env : Env⦄ ⦃crypto : Crypto⦄ where
  unfoldable pub sign_in : User → UserResponse → Action SignedIn
  unfolding issue_tokens
  sign_in user answer =
      issue_tokens user >>= λ tokens. pure (record { tokens = tokens; user = answer })

  -- `if (!isDev)` asks whether a function is falsy, which it never is.
  abbrev pub welcome_mail : String → String → Action Void
  welcome_mail email code =
      let is_dev_is_truthy = true in
      if not is_dev_is_truthy then send_email (mail_of email "verification" code) else pure tt

  -- What `register` does once the row is there.
  unfoldable pub welcome : User → Action SignedIn
  unfolding store_code sign_in send_email
  welcome user = do
    code ← fresh_code
    store_code (verify_key user.email) none code
    welcome_mail user.email code
    sign_in user (response user (some false) none)

  unfoldable pub register : CreateUser → Action SignedIn
  unfolding create_user welcome
  register dto = ask (λ n. crypto.hash n dto.password) >>= λ hash.
      create_user (registered dto hash) >>= welcome

  -- An address that is not verified gets its code once more.
  unfoldable pub remind : User → Action Bool
  unfolding queue_verification_email
  remind user = if user.is_verified then pure true else queue_verification_email user.email

  unfoldable pub login_with : String → User → Action SignedIn
  unfolding remind sign_in
  login_with password user = do
    hash ←
        or_throw user.password_hash (unauthorized "This account cannot login with email/password")
    throw_if (not (crypto.verify hash password)) (unauthorized "Invalid credentials")
    remind user
    sign_in user (response user (some user.is_verified) none)

  unfoldable pub login : String → String → Action SignedIn
  unfolding login_with
  login email password = do
    user ← or_throw (← gets (λ w. find_by_email email w.db)) (unauthorized "Invalid credentials")
    login_with password user

  -- The body of a request to `login`: `LoginUserDto` lowers the address, `CreateUserDto` does not. An
  -- address with no space around it is not changed by `trim`.
  unfoldable pub login_request : String → String → Action SignedIn
  unfolding login
  login_request email password = login (crypto.to_lower_case email) password

  -- `user.update({ where: { id }, data: { googleId } })`, a column that is unique.
  unfoldable pub adopt_google_id : User → Profile → Action Void
  unfolding update_user
  adopt_google_id user profile =
      if not (is_some user.google_id) && (profile.provider == "google")
      then (gets (λ w. is_some (find_other_by_google_id profile.provider_id user.id w.db))
          >>= λ taken.
              throw_if taken unique_violation
              >> update_user user.id (with_google_id (some profile.provider_id)) main
              >> pure tt)
      else pure tt

  unfoldable pub verify_existing : User → Action Void
  unfolding update_user
  verify_existing user =
      if user.is_verified then pure tt else (update_user user.id verified main >> pure tt)

  -- The answer shows the `googleId` that was read first.
  unfoldable pub enter_existing : Profile → User → Action SignedIn
  unfolding adopt_google_id verify_existing sign_in
  enter_existing profile user =
      adopt_google_id user profile
      >> verify_existing user
      >> sign_in (verified user) (response (verified user) (some true) user.google_id)

  unfoldable pub finish_new : User → Action SignedIn
  unfolding sign_in
  finish_new user = sign_in user (response user none user.google_id)

  unfoldable pub enter_new : ⦃google : Google⦄ → Profile → Action SignedIn
  unfolding create_user finish_new
  enter_new ⦃google⦄ profile = ask env.random >>= λ suffix.
      create_user (from_google profile (google_username (google.local_part profile.email) suffix))
      >>= finish_new

  unfoldable pub enter : ⦃google : Google⦄ → Profile → Option User → Action SignedIn
  unfolding enter_existing enter_new
  enter profile none = enter_new profile
  enter profile (some user) = enter_existing profile user

  unfoldable pub handle_oauth_login : ⦃google : Google⦄ → Profile → Action SignedIn
  unfolding enter
  handle_oauth_login profile =
      throw_if (profile.email == "") (bad_request "OAuth profile missing email")
      >> (gets (λ w. find_by_email profile.email w.db) >>= enter profile)
