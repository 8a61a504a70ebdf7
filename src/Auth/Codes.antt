-- ===== src/Auth/Codes.antt =====
-- Codes that are sent by mail: what the flows of src/auth/auth.service.ts share, and the verification
-- of an address. A getJSON value with no code and no time is any that another flow wrote.
pub mod Sending
pub mod Storing
pub mod Throttle
pub mod Verification
use Prim.Native.String
use nadbooks_backend.Prelude.{
  ℕ, ◌+◌, ◌-◌, ◌*◌, ◌/◌, zero, String, Bool, true, false, ◌==◌, not, Option, none, some, ltb, leb,
  if◌then◌else◌,
}
use nadbooks_backend.Prelude.Int.{ℤ, pos, sub_ℕ}
use nadbooks_backend.Schema.{User}
use nadbooks_backend.Effects.{
  Env, Value, CodeEntry, Action, Void, Mail, count, code_entry, not_found, conflict, bad_request,
  unauthorized, too_many_requests, pure, throw, gets, or_throw, ask, ◌>>=◌, ◌>>◌, throw_if,
}
use nadbooks_backend.Redis.{get, set, del}
use nadbooks_backend.Email.{send_email}
use nadbooks_backend.Users.Store.{find_by_email, update_by_email}
use nadbooks_backend.Auth.Crypto.{Crypto}

unfoldable pub verify_key : String → String
verify_key email = String.◌++◌ "verify:" email

abbrev pub five_minutes : ℕ
five_minutes = 5 * 60 * 1000

-- What `getJSON` of a code's key gives: nothing (0 is falsy too), a code, or another value.
pub data StoredCode : Type 0 where
  missing other : StoredCode
  known : CodeEntry → StoredCode

abbrev pub as_code : Option Value → StoredCode
as_code none = missing
as_code (some (count zero)) = missing
as_code (some (code_entry entry)) = known entry
as_code (some _) = other

-- `Date.now() - sentAt < fiveMinutes`
abbrev pub is_recent : ℕ → CodeEntry → Bool
is_recent now entry = ltb now (entry.sent_at + five_minutes)

-- `Math.ceil((fiveMinutes - (now - sentAt)) / 1000)`
unfoldable pub next_retry_in : ℕ → ℕ → ℤ
next_retry_in now sent_at =
    let retry_at = sent_at + five_minutes in
    if leb now retry_at
    then pos ((retry_at - now + 999) / 1000)
    else sub_ℕ 0 ((now - retry_at) / 1000)

-- `existingData?.sentAt || 0`
abbrev pub sent_at_of : StoredCode → ℕ
sent_at_of (known entry) = entry.sent_at
sent_at_of _ = 0

abbrev pub mail_of : String → String → String → Mail
mail_of to template_name code = record { to = to; template_name = template_name; code = code }

abbrev pub verified : User → User
verified user = record user { is_verified = true }

module _ ⦃env : Env⦄ ⦃crypto : Crypto⦄ where
  -- `dev ? '000000' : crypto.randomInt(100000, 999999).toString()`
  abbrev pub fresh_code : Action String
  fresh_code = ask (λ n. if env.dev then "000000" else env.random n)

  unfoldable pub store_code : String → Option String → String → Action Void
  unfolding set
  store_code key about code = do
    now ← ask env.clock
    set key (code_entry (record { code = code; sent_at = now; about = about }))
        crypto.verification_code_ttl

  -- A code of more than five minutes ago is stored once more, and sent again.
  abbrev pub code_or_fresh : StoredCode → Action String
  code_or_fresh (known entry) = if entry.code == "" then fresh_code else pure entry.code
  code_or_fresh _ = fresh_code

  unfoldable pub renew_code : String → StoredCode → Action (String × Bool)
  unfolding store_code
  renew_code key existing = do
    code ← code_or_fresh existing
    store_code key none code
    pure (code, true)

  -- The five minutes are counted from the time at which the code was stored.
  unfoldable pub stored_or_renewed : String → StoredCode → Action (String × Bool)
  unfolding renew_code
  stored_or_renewed key (known entry) = ask env.clock >>= λ now.
      if is_recent now entry then pure (entry.code, false) else renew_code key (known entry)
  stored_or_renewed key existing = renew_code key existing

  unfoldable pub generate_and_store_code : String → Action (String × Bool)
  unfolding stored_or_renewed get
  generate_and_store_code email =
      get (verify_key email) >>= λ v. stored_or_renewed (verify_key email) (as_code v)

  -- Outside development.
  abbrev pub send_unless_dev : Mail → Action Void
  send_unless_dev mail = if env.dev then pure tt else send_email mail

  -- The mail goes out whether or not the code is new.
  unfoldable pub mail_code : String → String × Bool → Action Bool
  unfolding send_email
  mail_code email (code, sent) =
      send_unless_dev (mail_of email "verification" code) >>= λ done. pure sent

  unfoldable pub queue_verification_email : String → Action Bool
  unfolding generate_and_store_code mail_code
  queue_verification_email email = generate_and_store_code email >>= mail_code email

  unfoldable pub too_soon : String → Action String
  unfolding get next_retry_in
  too_soon key = do
    v ← get key
    now ← ask env.clock
    throw (too_many_requests (next_retry_in now (sent_at_of (as_code v))))

  abbrev pub answer_sent : String → Bool → Action String
  answer_sent email sent =
      if sent then pure "Verification code sent" else too_soon (verify_key email)

  unfoldable pub request_verification : String → Action String
  unfolding queue_verification_email too_soon
  request_verification email = do
    user ← or_throw (← gets (λ w. find_by_email email w.db)) (not_found "User not found")
    throw_if user.is_verified (conflict "Email already verified")
    queue_verification_email email >>= answer_sent email

  -- `if (!stored) throw`, then `if (stored.code !== code) throw`.
  abbrev pub check_code : String → String → StoredCode → Action CodeEntry
  check_code gone code missing = throw (bad_request gone)
  check_code gone code other = throw (unauthorized "Invalid verification code")
  check_code gone code (known entry) =
      throw_if (not (entry.code == code)) (unauthorized "Invalid verification code") >> pure entry

  unfoldable pub verify_email : String → String → Action String
  unfolding get del update_by_email
  verify_email email code = do
    user ← or_throw (← gets (λ w. find_by_email email w.db)) (not_found "User not found")
    throw_if user.is_verified (conflict "Email already verified")
    v ← get (verify_key email)
    entry ← check_code "Verification code expired or not found" code (as_code v)
    del (verify_key email)
    update_by_email email verified
    pure "Email verified successfully"
