-- ===== src/Tests/Codes.antt =====
-- The theorems on codes and addresses at an unverified user and at the sample user.
use nadbooks_backend.Prelude.{
  ℕ, String, ◌≡◌, ◌<◌, refl, some, none, true, false, eq_self, find_first, [], ◌∷◌, arith,
}
use nadbooks_backend.Prelude.Int.{ℤ, pos, ◌≤ℤ◌}
use nadbooks_backend.Prelude.Distinct.{Distinct}
use nadbooks_backend.Schema.{User}
use nadbooks_backend.Effects.{World, CodeEntry, code_entry, ok, err, too_many_requests}
use nadbooks_backend.Effects.Laws.{Yields}
use nadbooks_backend.Redis.{assign, value_at}
use nadbooks_backend.Users.Store.{find_user, find_by_email}
use nadbooks_backend.Auth.Google.{Profile}
use nadbooks_backend.Auth.Codes.{verify_key, mail_of, request_verification, verify_email}
use nadbooks_backend.Auth.Codes.Verification.{request_verification-verify_email, IsUsedUp}
use nadbooks_backend.Auth.Codes.Throttle.{request_throttled_mails}
use nadbooks_backend.Auth.PinReset.{request_pin_reset, confirm_pin_reset, reset_key}
use nadbooks_backend.Auth.PinReset.RoundTrip.{pin_reset-verify_user_pin}
use nadbooks_backend.Auth.Accounts.{CreateUser, register, handle_oauth_login}
use nadbooks_backend.Auth.Accounts.Emails.{IsAddressed, Addressed}
use nadbooks_backend.Auth.EmailChange.{confirm_email_change}
use nadbooks_backend.Auth.EmailChange.Addresses.{users-IsAddressed}
use nadbooks_backend.Payments.Withdrawal.Pin.{verify_user_pin, pin_fail_key, pin_fail_limit, fails}
use nadbooks_backend.Tests.Samples.{
  ada, sample_env, sample_crypto, sample_google, sample_world, sample_db, empty_redis,
}

abbrev unproved : User
unproved = record ada { is_verified = false }

abbrev unproved_world : World
unproved_world = record sample_world { db = record sample_db { users = unproved ∷ [] } }

abbrev requested : World
requested = (request_verification "ada@mail" unproved_world).1

request_done :
    request_verification "ada@mail" unproved_world ≡ (ok "Verification code sent", requested)
unfolding request_verification find_by_email find_first verify_key
request_done = refl

request_verification-verify_email_example :
    (user : User) × (code : String) × (find_by_email "ada@mail" unproved_world.db ≡ some user)
    × (requested.outbox ≡ mail_of "ada@mail" "verification" code ∷ [])
    × Yields (verify_email "ada@mail" code) requested (λ answer v. IsUsedUp "ada@mail" user v)
request_verification-verify_email_example =
    request_verification-verify_email "ada@mail" "Verification code sent" unproved_world requested
      refl request_done

-- A code that was sent at the start.
abbrev sent_code : CodeEntry
sent_code = record { code = "123456"; sent_at = 0; about = none }

abbrev waiting : World
waiting = record unproved_world {
  redis =
      assign "verify:ada@mail" (some (record { value = code_entry sent_code; deadline = none }))
        empty_redis;
}

request_throttled_mails_example :
    (n : ℤ) × (v : World) × (request_verification "ada@mail" waiting
      ≡ (err (too_many_requests n), v))
    × (v.outbox ≡ mail_of "ada@mail" "verification" "123456" ∷ [])
    × ((pos 1 ≤ℤ n) × (n ≤ℤ pos 300))
unfolding find_by_email find_first verify_key
request_throttled_mails_example =
    request_throttled_mails "ada@mail" waiting unproved sent_code refl refl refl refl refl
      (omega arith) (omega arith) (omega arith)

abbrev reset_world : World
reset_world = (request_pin_reset "ada@mail" sample_world).1

reset_done : request_pin_reset "ada@mail" sample_world ≡ (ok "PIN reset code sent", reset_world)
unfolding request_pin_reset find_by_email find_first reset_key
reset_done = refl

law : (n : ℕ) (text : String) → sample_crypto.verify (sample_crypto.hash n text) text ≡ true
law n text = eq_self text

pin_reset-verify_user_pin_example :
    (code : String) × (reset_world.outbox ≡ mail_of "ada@mail" "transaction-pin-reset" code ∷ [])
    × Yields (confirm_pin_reset "ada@mail" code "777777") reset_world (λ answer v.
      fails (value_at (pin_fail_key "u1") v) < pin_fail_limit
      → verify_user_pin "u1" "777777" v ≡ (ok tt, v))
unfolding find_user find_by_email find_first
pin_reset-verify_user_pin_example =
    pin_reset-verify_user_pin ada "ada@mail" "777777" "PIN reset code sent" sample_world reset_world
      law refl refl refl reset_done

abbrev newcomer : CreateUser
newcomer = record {
  first_name = "grace";
  last_name = "obi";
  email = "grace@mail";
  username = "grace";
  password = "pass";
}

abbrev visitor : Profile
visitor = record {
  email = "ada@mail";
  given_name = "Ada";
  family_name = "Obi";
  provider = "google";
  provider_id = "g7";
}

-- The sample user has asked for a new address.
abbrev moving : World
moving = record sample_world {
  redis =
      assign "email-change:u1"
        (some (record {
          value = code_entry (record { code = "123456"; sent_at = 0; about = some "ada@new" });
          deadline = none;
        }))
        empty_redis;
}

moving-IsAddressed : IsAddressed moving
unfolding Addressed Distinct find_first
moving-IsAddressed = ((refl, tt), (refl, tt))

users-IsAddressed_example :
    IsAddressed (register newcomer moving).1
    × IsAddressed (handle_oauth_login visitor moving).1
    × IsAddressed (confirm_email_change "u1" "123456" moving).1
users-IsAddressed_example =
    users-IsAddressed newcomer visitor "u1" "123456" moving moving-IsAddressed
