-- ===== src/Auth/Codes/Sending.antt =====
-- Sending a code always returns, and leaves the database as it was.
use nadbooks_backend.Prelude.{String, Bool, ◌==◌, Option, none, refl, true, false}
use nadbooks_backend.Effects.{Env, Mail, ask, pure}
use nadbooks_backend.Effects.Laws.{Leaves, pure-Leaves, ask-Leaves, bind-Leaves, if-Leaves}
use nadbooks_backend.Redis.{get}
use nadbooks_backend.Email.{send_email}
use nadbooks_backend.Auth.Crypto.{Crypto}
use nadbooks_backend.Auth.Codes.{
  StoredCode, missing, other, known, as_code, is_recent, fresh_code, store_code, code_or_fresh,
  renew_code, stored_or_renewed, generate_and_store_code, send_unless_dev, mail_of, mail_code,
  queue_verification_email, verify_key,
}

module _ ⦃env : Env⦄ ⦃crypto : Crypto⦄ where
  pub store_code-Leaves :
      (key : String) (about : Option String) (code : String) → Leaves (store_code key about code)
  unfolding store_code
  store_code-Leaves key about code w = (tt, (store_code key about code w).1, refl, refl)

  pub get-Leaves : (key : String) → Leaves (get key)
  unfolding get
  get-Leaves key w = (_, w, refl, refl)

  pub send_unless_dev-Leaves : (mail : Mail) → Leaves (send_unless_dev mail)
  unfolding send_email
  send_unless_dev-Leaves mail =
      if-Leaves env.dev (pure tt) (send_email mail) (pure-Leaves tt)
        (λ w. (tt, (send_email mail w).1, refl, refl))

  pub code_or_fresh-Leaves : (existing : StoredCode) → Leaves (code_or_fresh existing)
  code_or_fresh-Leaves missing = ask-Leaves _
  code_or_fresh-Leaves other = ask-Leaves _
  code_or_fresh-Leaves (known entry) =
      if-Leaves (entry.code == "") fresh_code (pure entry.code) (ask-Leaves _)
        (pure-Leaves entry.code)

  renew_code-Leaves : (key : String) (existing : StoredCode) → Leaves (renew_code key existing)
  unfolding renew_code
  renew_code-Leaves key existing =
      bind-Leaves (code_or_fresh existing) _ (code_or_fresh-Leaves existing) (λ code.
        bind-Leaves (store_code key none code) _ (store_code-Leaves key none code)
          (λ done. pure-Leaves (code, true)))

  stored_or_renewed-Leaves :
      (key : String) (existing : StoredCode) → Leaves (stored_or_renewed key existing)
  unfolding stored_or_renewed
  stored_or_renewed-Leaves key missing = renew_code-Leaves key missing
  stored_or_renewed-Leaves key other = renew_code-Leaves key other
  stored_or_renewed-Leaves key (known entry) =
      bind-Leaves (ask env.clock) _ (ask-Leaves env.clock) (λ now.
        if-Leaves (is_recent now entry) (pure (entry.code, false)) (renew_code key (known entry))
          (pure-Leaves (entry.code, false)) (renew_code-Leaves key (known entry)))

  mail_code-Leaves : (email : String) (code : String × Bool) → Leaves (mail_code email code)
  unfolding mail_code
  mail_code-Leaves email (code, sent) =
      bind-Leaves (send_unless_dev (mail_of email "verification" code)) _
        (send_unless_dev-Leaves (mail_of email "verification" code)) (λ done. pure-Leaves sent)

  pub queue_verification_email-Leaves : (email : String) → Leaves (queue_verification_email email)
  unfolding queue_verification_email generate_and_store_code
  queue_verification_email-Leaves email =
      bind-Leaves (generate_and_store_code email) (mail_code email)
        (bind-Leaves (get (verify_key email)) _ (get-Leaves (verify_key email))
          (λ v. stored_or_renewed-Leaves (verify_key email) (as_code v)))
        (mail_code-Leaves email)
