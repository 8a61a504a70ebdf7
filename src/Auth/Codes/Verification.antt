-- ===== src/Auth/Codes/Verification.antt =====
-- The verification of an address: a code that was sent is accepted once.
use mathlib.Core.Path.{subst}
use nadbooks_backend.Prelude.{
  String, ◌≡◌, refl, sym, ap, ◌∙◌, true, false, some, none, arith, inl, inr, Bool-cases,
  Option-cases, eq_self, eq_iff, ◌==◌, ◌∷◌, find_first-update_self, update_first, find_first-fits,
}
use nadbooks_backend.Schema.{User, Db}
use nadbooks_backend.Effects.{World, Env, ok, err, conflict}
use nadbooks_backend.Effects.Laws.{Yields}
use nadbooks_backend.Redis.{value_at, del, assign}
use nadbooks_backend.Users.Store.{find_by_email, has_email, update_by_email}
use nadbooks_backend.Auth.Crypto.{Crypto}
use nadbooks_backend.Auth.Codes.{
  mail_of, queue_verification_email, verify_key, verified, request_verification, verify_email,
  too_soon,
}
use nadbooks_backend.Auth.Codes.Sending.{queue_verification_email-Leaves}
use nadbooks_backend.Auth.Codes.Storing.{as_code-cases, Holds, queue-Sent}

module _ ⦃env : Env⦄ ⦃crypto : Crypto⦄ where
  request_ok :
      (email message : String) (w w' : World)
      → request_verification email w ≡ (ok message, w')
      → (user : User) × (find_by_email email w.db ≡ some user)
        × (user.is_verified ≡ false)
        × (queue_verification_email email w ≡ (ok true, w'))
  unfolding request_verification too_soon
  request_ok email message w w' done = elim (Option-cases (find_by_email email w.db)) [
    | inl nobody ↦ absurd (ground arith)
    | inr (user, found) ↦
        let (sent, v, run, same) = queue_verification_email-Leaves email w in
        elim (Bool-cases sent) [
          | inl mailed ↦ (user, found, ground arith, ground arith)
          | inr no_mail ↦ absurd (ground arith)
        ]
  ]

  find_verified :
      (email : String) (user : User) (d : Db)
      → find_by_email email d ≡ some user
      → find_by_email email (record d { users = update_first (has_email email) verified d.users })
        ≡ some (verified user)
  unfolding find_by_email
  find_verified email user d found =
      find_first-update_self (has_email email) verified d.users user found
        (find_first-fits (has_email email) d.users user found)

  -- What is so once an address has been verified.
  abbrev pub IsUsedUp : String → User → World → Type 0
  IsUsedUp email user v =
      (find_by_email email v.db ≡ some (verified user)) × (value_at (verify_key email) v ≡ none)

  abbrev used : String → World → World
  used email w = record w {
    db = record w.db { users = update_first (has_email email) verified w.db.users };
    redis = assign (verify_key email) none w.redis;
  }

  used-IsUsedUp :
      (email : String) (w : World) (user : User)
      → find_by_email email w.db ≡ some user
      → IsUsedUp email user (used email w)
  used-IsUsedUp email w user found =
      (find_verified email user w.db found, ground (arith, eq_self (verify_key email)))

  verify_email_right :
      (email code : String) (w : World) (user : User)
      → find_by_email email w.db ≡ some user
      → user.is_verified ≡ false
      → Holds (verify_key email) code w
      → Yields (verify_email email code) w (λ message v. IsUsedUp email user v)
  unfolding verify_email del update_by_email
  verify_email_right email code w user found fresh (entry, same, there) = (
    "Email verified successfully",
    used email w,
    ground (arith, found, fresh, there, (eq_iff entry.code code).1 same),
    used-IsUsedUp email w user found,
  )

  -- After a request outside development the mail that went out holds a code that verifies the
  -- address; then the user is verified and the code is gone.
  pub request_verification-verify_email :
      (email message : String) (w w' : World)
      → env.dev ≡ false
      → request_verification email w ≡ (ok message, w')
      → (user : User) × (code : String) × (find_by_email email w.db ≡ some user)
        × (w'.outbox ≡ mail_of email "verification" code ∷ w.outbox)
        × Yields (verify_email email code) w' (λ answer v. IsUsedUp email user v)
  request_verification-verify_email email message w w' live done =
      let (user, found, fresh, run) = request_ok email message w w' done in
      let (sent, v, runs, so) = queue-Sent email w live in
      let (b, u, kept_run, kept) = queue_verification_email-Leaves email w in
      let mailed : sent ≡ true = cc (run, runs) in
      let same : v ≡ w' = cc (run, runs) in
      let (code, holds, out) = so mailed in
      let there : w'.db ≡ w.db = ap (λ r. r.1.db) (sym run ∙ kept_run) ∙ kept in
      (
        user,
        code,
        found,
        subst (λ (x : World). x.outbox ≡ mail_of email "verification" code ∷ w.outbox) same out,
        verify_email_right email code w' user (ap (λ d. find_by_email email d) there ∙ found) fresh
            (subst (λ (x : World). Holds (verify_key email) code x) same holds),
      )

  verify_email_ok :
      (email code message : String) (w w' : World)
      → verify_email email code w ≡ (ok message, w')
      → (user : User) × (find_by_email email w.db ≡ some user)
        × Holds (verify_key email) code w
        × (w' ≡ used email w)
  unfolding verify_email del update_by_email
  verify_email_ok email code message w w' done = elim (Option-cases (find_by_email email w.db)) [
    | inl nobody ↦ absurd (ground arith)
    | inr (user, found) ↦ elim (as_code-cases (value_at (verify_key email) w)) [
      | inl (inl gone) ↦ absurd (ground (arith, found, gone))
      | inl (inr strange) ↦ absurd (ground (arith, found, strange))
      | inr (entry, there) ↦
          let right : (entry.code == code) ≡ true = ground (arith, found, there) in
          (
            user,
            found,
            (entry, (eq_iff entry.code code).0 right, there),
            ground (arith, found, there, right),
          )
    ]
  ]

  verify_email_again :
      (email code : String) (w : World) (user : User)
      → find_by_email email w.db ≡ some user
      → user.is_verified ≡ true
      → verify_email email code w ≡ (err (conflict "Email already verified"), w)
  unfolding verify_email
  verify_email_again email code w user found before = ground (arith, found, before)

  -- An address is verified only by the code that is stored for it, which is then gone; a second
  -- attempt with any code is refused.
  pub verify_email_once :
      (email code later message : String) (w w' : World)
      → verify_email email code w ≡ (ok message, w')
      → Holds (verify_key email) code w
        × (value_at (verify_key email) w' ≡ none)
        × (verify_email email later w' ≡ (err (conflict "Email already verified"), w'))
  verify_email_once email code later message w w' done =
      let (user, found, holds, same) = verify_email_ok email code message w w' done in
      let fresh = used-IsUsedUp email w user found in
      (
        holds,
        subst (λ (v : World). value_at (verify_key email) v ≡ none) (sym same) fresh.1,
        verify_email_again email later w' (verified user)
            (subst (λ (v : World). find_by_email email v.db ≡ some (verified user)) (sym same)
              fresh.0)
            refl,
      )
