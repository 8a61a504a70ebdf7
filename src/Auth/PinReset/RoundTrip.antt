-- ===== src/Auth/PinReset/RoundTrip.antt =====
-- From the request of a new PIN to the withdrawal that asks for it.
use mathlib.Core.Path.{subst}
use mathlib.Core.Bool.{false≢true}
use nadbooks_backend.Prelude.{
  ℕ, suc, ◌<◌, String, Bool, ◌≡◌, refl, sym, ap, ◌∙◌, true, false, some, none, arith, inl, inr,
  Bool-cases, Option-cases, eq_iff, ◌∷◌,
}
use nadbooks_backend.Schema.{User}
use nadbooks_backend.Effects.{World, Env, ok}
use nadbooks_backend.Effects.Laws.{Yields, bind-Yields}
use nadbooks_backend.Redis.{value_at, get, del, assign}
use nadbooks_backend.Email.{send_email, post}
use nadbooks_backend.Users.Store.{find_user, find_by_email}
use nadbooks_backend.Auth.Crypto.{Crypto}
use nadbooks_backend.Auth.Codes.{
  StoredCode, missing, other, known, as_code, is_recent, code_or_fresh, store_code, too_soon,
  mail_of,
}
use nadbooks_backend.Auth.Codes.Storing.{Holds, code_or_fresh-Quiet, store_code-Holds}
use nadbooks_backend.Auth.Pin.RoundTrip.{stored, store_pin_run, verify_stored}
use nadbooks_backend.Auth.PinReset.{
  reset_key, id_of, keep_reset_code, renew_reset_code, reset_or_renewed,
  generate_and_store_pin_reset_code, mail_reset, queue_pin_reset_email, request_pin_reset,
  confirm_pin_reset,
}
use nadbooks_backend.Payments.Withdrawal.Pin.{verify_user_pin, pin_fail_key, pin_fail_limit, fails}

module _ ⦃env : Env⦄ ⦃crypto : Crypto⦄ where
  -- After a renewal the code can be read, and neither the tables nor the outbox have changed.
  abbrev Renewed : String → World → String × Bool → World → Type 0
  Renewed email w r v =
      r.1 ≡ true → Holds (reset_key email) r.0 v × (v.outbox ≡ w.outbox) × (v.db ≡ w.db)

  renew_reset_code-Renewed :
      (email : String) (existing : StoredCode) (w : World)
      → Yields (renew_reset_code email existing) w (Renewed email w)
  unfolding renew_reset_code keep_reset_code store_code
  renew_reset_code-Renewed email existing w =
      let (code, v, run, (same, kept)) = code_or_fresh-Quiet existing w in
      let id = id_of (find_by_email email v.db) in
      bind-Yields (code_or_fresh existing) (keep_reset_code email) w (Renewed email w) (
        code,
        v,
        run,
        (
          (code, true),
          (store_code (reset_key email) id code v).1,
          refl,
          λ sent. ((_, refl, store_code-Holds (reset_key email) id code v), same, kept),
        ),
      )

  reset_or_renewed-Renewed :
      (email : String) (existing : StoredCode) (w : World)
      → Yields (reset_or_renewed email existing) w (Renewed email w)
  unfolding reset_or_renewed
  reset_or_renewed-Renewed email missing w = renew_reset_code-Renewed email missing w
  reset_or_renewed-Renewed email other w = renew_reset_code-Renewed email other w
  reset_or_renewed-Renewed email (known entry) w =
      let later = record w { step = suc w.step } in
      elim (Bool-cases (is_recent (env.clock w.step) entry)) [
        | inl recent ↦
            ((entry.code, false), later, rw recent refl, λ sent. absurd (false≢true sent))
        | inr old ↦
            let (r, v, run, so) = renew_reset_code-Renewed email (known entry) later in
            (r, v, rw old run, so)
      ]

  mail_reset_ok :
      (email message code : String) (sent : Bool) (w w' : World)
      → env.dev ≡ false
      → mail_reset email (code, sent) w ≡ (ok message, w')
      → (sent ≡ true) × (w' ≡ post (mail_of email "transaction-pin-reset" code) w)
  unfolding mail_reset too_soon send_email
  mail_reset_ok email message code false w w' live done = absurd (ground arith)
  mail_reset_ok email message code true w w' live done = (refl, ground (arith, live))

  request_pin_reset_ok :
      (email message : String) (w w' : World)
      → env.dev ≡ false
      → request_pin_reset email w ≡ (ok message, w')
      → (user : User) × (code : String) × (find_by_email email w.db ≡ some user)
        × Holds (reset_key email) code w'
        × (w'.outbox ≡ mail_of email "transaction-pin-reset" code ∷ w.outbox)
        × (w'.db ≡ w.db)
  unfolding request_pin_reset queue_pin_reset_email generate_and_store_pin_reset_code get
  request_pin_reset_ok email message w w' live done =
      elim (Option-cases (find_by_email email w.db)) [
        | inl nobody ↦ absurd (ground arith)
        | inr (user, found) ↦
            let (r, v, run, so) =
              reset_or_renewed-Renewed email (as_code (value_at (reset_key email) w)) w in
            let mailed : mail_reset email r v ≡ (ok message, w') = ground (arith, found, run) in
            let (sent, there) = mail_reset_ok email message r.0 r.1 v w' live mailed in
            let (holds, out, kept) = so sent in
            let mail = mail_of email "transaction-pin-reset" r.0 in
            (
              user,
              r.0,
              found,
              subst (λ (x : World). Holds (reset_key email) r.0 x) (sym there) holds,
              ap (λ x. x.outbox) there ∙ ap (λ l. mail ∷ l) out,
              ap (λ x. x.db) there ∙ kept,
            )
      ]

  -- The world once the code is gone.
  abbrev cleared : String → World → World
  cleared email w = record w { redis = assign (reset_key email) none w.redis }

  confirm_right :
      (email code pin : String) (w : World) (user : User)
      → find_by_email email w.db ≡ some user
      → find_user user.id w.db ≡ some user
      → Holds (reset_key email) code w
      → confirm_pin_reset email code pin w
        ≡ (ok "Transaction PIN reset successfully", stored user.id pin (cleared email w))
  unfolding confirm_pin_reset del get
  confirm_right email code pin w user found own (entry, same, there) = ground (
    arith,
    found,
    there,
    (eq_iff entry.code code).1 same,
    store_pin_run user.id pin (cleared email w) user own,
  )

  -- After a request outside development the mail that went out holds a code with which a new PIN
  -- is set, and the withdrawal's check then accepts that PIN, as long as fewer than three failures
  -- are on record. Assumed: the row is the one that its id finds, and argon2 verifies a text
  -- against each hash it made of it.
  pub pin_reset-verify_user_pin :
      (user : User) (email pin message : String) (w w' : World)
      → ((n : ℕ) (text : String) → crypto.verify (crypto.hash n text) text ≡ true)
      → env.dev ≡ false
      → find_by_email email w.db ≡ some user
      → find_user user.id w.db ≡ some user
      → request_pin_reset email w ≡ (ok message, w')
      → (code : String) × (w'.outbox ≡ mail_of email "transaction-pin-reset" code ∷ w.outbox)
        × Yields (confirm_pin_reset email code pin) w' (λ answer v.
          fails (value_at (pin_fail_key user.id) v) < pin_fail_limit
          → verify_user_pin user.id pin v ≡ (ok tt, v))
  pin_reset-verify_user_pin user email pin message w w' law live found own done =
      let (row, code, also, holds, out, kept) = request_pin_reset_ok email message w w' live done in
      let found' = ap (λ d. find_by_email email d) kept ∙ found in
      let own' = ap (λ d. find_user user.id d) kept ∙ own in
      (
        code,
        out,
        (
          "Transaction PIN reset successfully",
          stored user.id pin (cleared email w'),
          confirm_right email code pin w' user found' own' holds,
          λ few. verify_stored user.id pin (cleared email w') user own' (law w'.step pin) few,
        ),
      )
