-- ===== src/Auth/EmailChange.antt =====
-- `requestEmailChange` and `confirmEmailChange` of src/auth/auth.service.ts.
pub mod Addresses
use Prim.Native.String
use nadbooks_backend.Prelude.{
  String, true, ◌==◌, not, Option, none, some, is_some, find_first, if◌then◌else◌,
}
use nadbooks_backend.Schema.{Db, User}
use nadbooks_backend.Effects.{
  Env, CodeEntry, Action, Void, main, not_found, conflict, bad_request, too_many_requests, pure,
  throw, gets, or_throw, ask, ◌>>=◌, ◌>>◌, throw_if,
}
use nadbooks_backend.Redis.{get, del}
use nadbooks_backend.Email.{send_email}
use nadbooks_backend.Users.Store.{find_user, find_other_by_email, has_id, update_user}
use nadbooks_backend.Auth.Crypto.{Crypto}
use nadbooks_backend.Auth.Sessions.{Tokens, issue_tokens}
use nadbooks_backend.Auth.Codes.{
  StoredCode, missing, other, known, as_code, is_recent, next_retry_in, fresh_code, store_code,
  send_unless_dev, mail_of, check_code,
}

unfoldable pub change_key : String → String
change_key user_id = String.◌++◌ "email-change:" user_id

-- `newEmail` absent leaves the column as it is, and is no condition in a query.
abbrev pub with_email : Option String → User → User
with_email none user = record user { is_verified = true }
with_email (some email) user = record user { email = email; is_verified = true }

abbrev pub find_taken : ⦃env : Env⦄ → Option String → String → Db → Option User
find_taken none id d = find_first (λ user. not (has_id id user)) d.users
find_taken (some email) id d = find_other_by_email email id d

module _ ⦃env : Env⦄ ⦃crypto : Crypto⦄ where
  -- The second `Date.now()` may be later than the first.
  unfoldable pub check_pause : StoredCode → Action Void
  unfolding next_retry_in
  check_pause (known entry) = ask env.clock >>= λ now.
      if is_recent now entry
      then (ask env.clock >>= λ later.
          throw (too_many_requests (next_retry_in later entry.sent_at)))
      else pure tt
  check_pause existing = pure tt

  unfoldable pub send_change_code : String → String → Action String
  unfolding store_code send_email
  send_change_code user_id new_email = do
    code ← fresh_code
    store_code (change_key user_id) (some new_email) code
    send_unless_dev (mail_of new_email "verification" code)
    pure "Verification code sent to your new email"

  unfoldable pub request_email_change : String → String → Action String
  unfolding get check_pause send_change_code
  request_email_change user_id new_email = do
    user ← or_throw (← gets (λ w. find_user user_id w.db)) (not_found "User not found")
    throw_if (crypto.to_lower_case user.email == crypto.to_lower_case new_email)
        (bad_request "New email is the same as your current email")
    taken ← gets (λ w. is_some (find_other_by_email new_email user_id w.db))
    throw_if taken (conflict "Email already in use")
    v ← get (change_key user_id)
    check_pause (as_code v)
    send_change_code user_id new_email

  unfoldable pub switch_email : String → CodeEntry → Action (User × Tokens)
  unfolding update_user del issue_tokens
  switch_email user_id entry = do
    taken ← gets (λ w. is_some (find_taken entry.about user_id w.db))
    throw_if taken (conflict "Email already in use")
    user ← update_user user_id (with_email entry.about) main
    del (change_key user_id)
    tokens ← issue_tokens user
    pure (user, tokens)

  unfoldable pub confirm_email_change : String → String → Action (User × Tokens)
  unfolding get switch_email
  confirm_email_change user_id code = do
    v ← get (change_key user_id)
    entry ← check_code "Email change request expired or not found" code (as_code v)
    switch_email user_id entry
