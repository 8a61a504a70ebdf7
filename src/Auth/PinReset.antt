-- ===== src/Auth/PinReset.antt =====
-- `requestPinReset` and `confirmPinReset` of src/auth/auth.service.ts.
pub mod RoundTrip
use Prim.Native.String
use nadbooks_backend.Prelude.{
  ℕ, String, Bool, true, false, ◌==◌, not, Option, none, some, if◌then◌else◌,
}
use nadbooks_backend.Schema.{User}
use nadbooks_backend.Effects.{
  Env, CodeEntry, Action, not_found, bad_request, unauthorized, pure, throw, gets, or_throw, ask,
  ◌>>=◌, ◌>>◌, throw_if,
}
use nadbooks_backend.Redis.{get, del}
use nadbooks_backend.Email.{send_email}
use nadbooks_backend.Users.Store.{find_by_email}
use nadbooks_backend.Auth.Crypto.{Crypto}
use nadbooks_backend.Auth.Pin.{store_pin}
use nadbooks_backend.Auth.Codes.{
  StoredCode, missing, other, known, as_code, is_recent, code_or_fresh, store_code, too_soon,
  send_unless_dev, mail_of,
}

unfoldable pub reset_key : String → String
reset_key email = String.◌++◌ "pin:reset:" email

-- `user?.id`
abbrev pub id_of : Option User → Option String
id_of none = none
id_of (some user) = some user.id

module _ ⦃env : Env⦄ ⦃crypto : Crypto⦄ where
  unfoldable pub keep_reset_code : String → String → Action (String × Bool)
  unfolding store_code
  keep_reset_code email code = do
    user ← gets (λ w. find_by_email email w.db)
    store_code (reset_key email) (id_of user) code
    pure (code, true)

  unfoldable pub renew_reset_code : String → StoredCode → Action (String × Bool)
  unfolding keep_reset_code
  renew_reset_code email existing = code_or_fresh existing >>= keep_reset_code email

  unfoldable pub reset_or_renewed : String → StoredCode → Action (String × Bool)
  unfolding renew_reset_code
  reset_or_renewed email (known entry) = ask env.clock >>= λ now.
      if is_recent now entry then pure (entry.code, false) else renew_reset_code email (known entry)
  reset_or_renewed email existing = renew_reset_code email existing

  unfoldable pub generate_and_store_pin_reset_code : String → Action (String × Bool)
  unfolding reset_or_renewed get
  generate_and_store_pin_reset_code email =
      get (reset_key email) >>= λ v. reset_or_renewed email (as_code v)

  -- Here no mail goes out when the code was sent before.
  unfoldable pub mail_reset : String → String × Bool → Action String
  unfolding send_email too_soon
  mail_reset email (code, false) = too_soon (reset_key email)
  mail_reset email (code, true) = do
    send_unless_dev (mail_of email "transaction-pin-reset" code)
    pure "PIN reset code sent"

  unfoldable pub queue_pin_reset_email : String → Action String
  unfolding generate_and_store_pin_reset_code mail_reset
  queue_pin_reset_email email = generate_and_store_pin_reset_code email >>= mail_reset email

  unfoldable pub request_pin_reset : String → Action String
  unfolding queue_pin_reset_email
  request_pin_reset email = do
    user ← or_throw (← gets (λ w. find_by_email email w.db)) (not_found "User not found")
    throw_if (not user.is_verified) (bad_request "Email verification required before resetting PIN")
    queue_pin_reset_email email

  -- `if (!stored) throw`, then `if (stored.code !== code) throw`.
  abbrev pub check_reset_code : String → StoredCode → Action CodeEntry
  check_reset_code code missing = throw (bad_request "Reset code expired or not found")
  check_reset_code code other = throw (unauthorized "Invalid reset code")
  check_reset_code code (known entry) =
      throw_if (not (entry.code == code)) (unauthorized "Invalid reset code") >> pure entry

  unfoldable pub confirm_pin_reset : String → String → String → Action String
  unfolding get del store_pin
  confirm_pin_reset email code new_pin = do
    user ← or_throw (← gets (λ w. find_by_email email w.db)) (not_found "User not found")
    v ← get (reset_key email)
    entry ← check_reset_code code (as_code v)
    del (reset_key email)
    store_pin user.id new_pin
    pure "Transaction PIN reset successfully"
