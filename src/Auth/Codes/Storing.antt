-- ===== src/Auth/Codes/Storing.antt =====
-- What a stored or mailed code leaves in Redis and in the outbox.
use mathlib.Core.Bool.{false≢true}
use nadbooks_backend.Prelude.{
  zero, suc, ◌⊎◌, String, Bool, ◌≡◌, refl, ap, true, false, some, none, Option, arith, inl, inr,
  Bool-cases, eq_self, eqb, ◌==◌, ◌∷◌, if◌then◌else◌,
}
use nadbooks_backend.Effects.{
  World, Env, CodeEntry, Value, code_entry, count, text, session, book, books, pure, ◌>>=◌,
}
use nadbooks_backend.Effects.Laws.{Yields, bind-Yields}
use nadbooks_backend.Redis.{value_at, get}
use nadbooks_backend.Email.{send_email, post}
use nadbooks_backend.Auth.Crypto.{Crypto}
use nadbooks_backend.Auth.Codes.{
  StoredCode, missing, other, known, as_code, is_recent, fresh_code, store_code, code_or_fresh,
  renew_code, stored_or_renewed, generate_and_store_code, mail_of, mail_code,
  queue_verification_email, verify_key,
}

pub as_code-cases :
    (o : Option Value)
    → ((as_code o ≡ missing) ⊎ (as_code o ≡ other))
      ⊎ ((entry : CodeEntry) × (o ≡ some (code_entry entry)))
as_code-cases none = inl (inl refl)
as_code-cases (some (count zero)) = inl (inl refl)
as_code-cases (some (count (suc n))) = inl (inr refl)
as_code-cases (some (text t)) = inl (inr refl)
as_code-cases (some (session s)) = inl (inr refl)
as_code-cases (some (book b)) = inl (inr refl)
as_code-cases (some (books bs)) = inl (inr refl)
as_code-cases (some (code_entry entry)) = inr (entry, refl)

module _ ⦃env : Env⦄ where
  -- The code under the key can be read.
  abbrev pub Holds : String → String → World → Type 0
  Holds key code w =
      (entry : CodeEntry) × (entry.code ≡ code) × (value_at key w ≡ some (code_entry entry))

module _ ⦃env : Env⦄ ⦃crypto : Crypto⦄ where
  pub store_code-Holds :
      (key : String) (about : Option String) (code : String) (w : World)
      → value_at key (store_code key about code w).1
        ≡ some (code_entry (record { code = code; sent_at = env.clock w.step; about = about }))
  unfolding store_code
  store_code-Holds key about code w = elim (Bool-cases (eqb crypto.verification_code_ttl 0)) [
    | inl never ↦ ground (arith, eq_self key, never)
    | inr later ↦ ground (arith, eq_self key, later)
  ]

  -- Choosing the code, the one that is there or a new one, changes no table and sends no mail.
  pub code_or_fresh-Quiet :
      (existing : StoredCode) (w : World)
      → Yields (code_or_fresh existing) w (λ code v. (v.outbox ≡ w.outbox) × (v.db ≡ w.db))
  code_or_fresh-Quiet missing w = (_, (fresh_code w).1, refl, (refl, refl))
  code_or_fresh-Quiet other w = (_, (fresh_code w).1, refl, (refl, refl))
  code_or_fresh-Quiet (known entry) w = elim (Bool-cases (entry.code == "")) [
    | inl empty ↦ (
      if env.dev then "000000" else env.random w.step,
      (fresh_code w).1,
      rw empty refl,
      (refl, refl),
    )
    | inr there ↦ (entry.code, w, rw there refl, (refl, refl))
  ]

  -- After a renewal the code can be read, and no mail has gone out yet.
  abbrev Renewed : String → World → String × Bool → World → Type 0
  Renewed key w r v = Holds key r.0 v × (v.outbox ≡ w.outbox)

  renew_code-Renewed :
      (key : String) (existing : StoredCode) (w : World)
      → Yields (renew_code key existing) w (Renewed key w)
  unfolding renew_code store_code
  renew_code-Renewed key existing w =
      let (code, v, run, (same, kept)) = code_or_fresh-Quiet existing w in
      bind-Yields (code_or_fresh existing)
        (λ code. store_code key none code >>= λ done. pure (code, true)) w (Renewed key w)
        (
          code,
          v,
          run,
          (
            (code, true),
            (store_code key none code v).1,
            refl,
            ((_, refl, store_code-Holds key none code v), same),
          ),
        )

  abbrev Made : String → World → String × Bool → World → Type 0
  Made key w r v = r.1 ≡ true → Renewed key w r v

  stored_or_renewed-Made :
      (key : String) (existing : StoredCode) (w : World)
      → Yields (stored_or_renewed key existing) w (Made key w)
  unfolding stored_or_renewed
  stored_or_renewed-Made key missing w =
      let (r, v, run, so) = renew_code-Renewed key missing w in (r, v, run, λ yes. so)
  stored_or_renewed-Made key other w =
      let (r, v, run, so) = renew_code-Renewed key other w in (r, v, run, λ yes. so)
  stored_or_renewed-Made key (known entry) w =
      let later = record w { step = suc w.step } in
      elim (Bool-cases (is_recent (env.clock w.step) entry)) [
        | inl recent ↦ ((entry.code, false), later, rw recent refl, λ yes. absurd (false≢true yes))
        | inr old ↦
            let (r, v, run, so) = renew_code-Renewed key (known entry) later in
            (r, v, rw old run, λ yes. so)
      ]

  -- A code that went out is under the key, and its mail is the only one.
  abbrev pub Sent : String → World → Bool → World → Type 0
  Sent email w sent v =
      sent ≡ true
      → (code : String) × Holds (verify_key email) code v
        × (v.outbox ≡ mail_of email "verification" code ∷ w.outbox)

  mail_code-Sent :
      (email : String) (w v : World) (r : String × Bool)
      → env.dev ≡ false
      → Made (verify_key email) w r v
      → Yields (mail_code email r) v (Sent email w)
  unfolding mail_code send_email
  mail_code-Sent email w v (code, sent) live made = (
    sent,
    post (mail_of email "verification" code) v,
    rw live refl,
    λ yes.
        let (holds, same) = made yes in
        (code, holds, ap (λ l. mail_of email "verification" code ∷ l) same),
  )

  pub queue-Sent :
      (email : String) (w : World)
      → env.dev ≡ false
      → Yields (queue_verification_email email) w (Sent email w)
  unfolding queue_verification_email generate_and_store_code get
  queue-Sent email w live =
      let (r, v, run, made) =
        stored_or_renewed-Made (verify_key email) (as_code (value_at (verify_key email) w)) w in
      bind-Yields (generate_and_store_code email) (mail_code email) w (Sent email w)
        (r, v, run, mail_code-Sent email w v r live made)
