-- ===== src/Auth/Codes/Throttle.antt =====
-- A second request within five minutes of the first.
use nadbooks_backend.Prelude.{
  ℕ, suc, ◌+◌, ◌≤◌, ◌<◌, String, ◌≡◌, refl, true, false, some, arith, ◌∷◌,
}
use nadbooks_backend.Prelude.Int.{ℤ, pos, ◌≤ℤ◌}
use nadbooks_backend.Schema.{User}
use nadbooks_backend.Effects.{World, Env, CodeEntry, code_entry, ok, err, too_many_requests}
use nadbooks_backend.Redis.{value_at, get}
use nadbooks_backend.Email.{send_email, post}
use nadbooks_backend.Users.Store.{find_by_email}
use nadbooks_backend.Auth.Crypto.{Crypto}
use nadbooks_backend.Auth.Codes.{
  is_recent, five_minutes, next_retry_in, mail_of, verify_key, request_verification,
  queue_verification_email, generate_and_store_code, stored_or_renewed, mail_code, too_soon,
}

-- Within the five minutes the wait is between one and three hundred seconds.
pub next_retry_in-bounds :
    (now sent_at : ℕ)
    → sent_at ≤ now
    → now < sent_at + five_minutes
    → (pos 1 ≤ℤ next_retry_in now sent_at) × (next_retry_in now sent_at ≤ℤ pos 300)
unfolding next_retry_in
next_retry_in-bounds now sent_at before within = ground arith

module _ ⦃env : Env⦄ ⦃crypto : Crypto⦄ where
  abbrev one_later : World → World
  one_later w = record w { step = suc w.step }

  queue_throttled :
      (email : String) (w : World) (entry : CodeEntry)
      → env.dev ≡ false
      → value_at (verify_key email) w ≡ some (code_entry entry)
      → is_recent (env.clock w.step) entry ≡ true
      → queue_verification_email email w
        ≡ (ok false, post (mail_of email "verification" entry.code) (one_later w))
  unfolding queue_verification_email generate_and_store_code stored_or_renewed mail_code get
      send_email
  queue_throttled email w entry live there recent = ground (arith, live, there, recent)

  -- Outside development a request within five minutes of the last code is answered with 429, and
  -- with a wait of one to three hundred seconds, but the mail goes out once more: the same code,
  -- to the same address. Assumed: the clock does not go back, and the code is still there, and
  -- still of the last five minutes, when it is read again for the wait.
  pub request_throttled_mails :
      (email : String) (w : World) (user : User) (entry : CodeEntry)
      → env.dev ≡ false
      → find_by_email email w.db ≡ some user
      → user.is_verified ≡ false
      → value_at (verify_key email) w ≡ some (code_entry entry)
      → value_at (verify_key email) (one_later w) ≡ some (code_entry entry)
      → env.clock w.step < entry.sent_at + five_minutes
      → entry.sent_at ≤ env.clock (suc w.step)
      → env.clock (suc w.step) < entry.sent_at + five_minutes
      → (n : ℤ) × (v : World) × (request_verification email w ≡ (err (too_many_requests n), v))
        × (v.outbox ≡ mail_of email "verification" entry.code ∷ w.outbox)
        × ((pos 1 ≤ℤ n) × (n ≤ℤ pos 300))
  unfolding request_verification too_soon get
  request_throttled_mails email w user entry live found fresh there still recent before within =
      let queued = queue_throttled email w entry live there (ground arith) in
      let posted = post (mail_of email "verification" entry.code) (one_later w) in
      (
        next_retry_in (env.clock (suc w.step)) entry.sent_at,
        one_later posted,
        ground (arith, found, fresh, queued, still),
        refl,
        next_retry_in-bounds (env.clock (suc w.step)) entry.sent_at before within,
      )
