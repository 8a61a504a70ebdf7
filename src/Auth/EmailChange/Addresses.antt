-- ===== src/Auth/EmailChange/Addresses.antt =====
-- A change of address keeps the addresses distinct.
use nadbooks_backend.Prelude.{
  String, ◌≡◌, ◌⊎◌, refl, none, some, Option, arith, inl, inr, Bool-cases, Option-cases, is_some,
  update_first, not, ◌==◌,
}
use nadbooks_backend.Prelude.Distinct.{Distinct, Distinct-keep, Distinct-update, is_some-none}
use nadbooks_backend.Schema.{User}
use nadbooks_backend.Effects.{World, Env, CodeEntry, throw_if, unauthorized, pure}
use nadbooks_backend.Effects.Laws.{Keeps, bind-Keeps, then-Keeps, pure-Keeps}
use nadbooks_backend.Redis.{get, del, value_at}
use nadbooks_backend.Users.Store.{find_user, find_other_by_email, has_id, update_user, set_user}
use nadbooks_backend.Auth.Crypto.{Crypto}
use nadbooks_backend.Auth.Sessions.{issue_tokens}
use nadbooks_backend.Auth.Codes.{StoredCode, missing, other, known, as_code, check_code}
use nadbooks_backend.Auth.Google.{Google, Profile}
use nadbooks_backend.Auth.Accounts.{CreateUser, register, handle_oauth_login}
use nadbooks_backend.Auth.Accounts.Emails.{
  Addressed, IsAddressed, kept_or, register-IsAddressed, oauth-IsAddressed,
}
use nadbooks_backend.Auth.EmailChange.{
  confirm_email_change, switch_email, with_email, find_taken, change_key,
}

with_email-id : (email : Option String) (user : User) → (with_email email user).id ≡ user.id
with_email-id none user = refl
with_email-id (some email) user = refl

switched :
    ⦃env : Env⦄ (email : Option String) (id : String) (w : World)
    → Distinct (λ u. u.id) w.db.users
    → Distinct (λ u. env.weight u.email) w.db.users
    → find_taken email id w.db ≡ none
    → Distinct (λ u. env.weight u.email) (update_first (has_id id) (with_email email) w.db.users)
unfolding find_other_by_email
switched ⦃env⦄ none id w ids emails free =
    Distinct-keep (λ u. env.weight u.email) (has_id id) (with_email none) w.db.users (λ u. refl)
      emails
switched ⦃env⦄ (some email) id w ids emails free =
    Distinct-update (λ u. u.id) (λ u. env.weight u.email) id (env.weight email)
      (with_email (some email)) w.db.users (λ u. refl) free ids emails

module _ ⦃env : Env⦄ ⦃crypto : Crypto⦄ where
  switch_rows :
      (user_id : String) (entry : CodeEntry) (w : World)
      → ((switch_email user_id entry w).1.db.users ≡ w.db.users)
        ⊎ ((find_taken entry.about user_id w.db ≡ none)
            × ((switch_email user_id entry w).1.db.users
                ≡ update_first (has_id user_id) (with_email entry.about) w.db.users))
  unfolding switch_email update_user set_user issue_tokens del
  switch_rows user_id entry w =
      let taken = find_taken entry.about user_id w.db in
      elim (Bool-cases (is_some taken)) [
        | inl clash ↦ inl (ground (arith, clash))
        | inr free ↦ elim (Option-cases (find_user user_id w.db)) [
          | inl nobody ↦ inl (ground (arith, free, nobody))
          | inr (user, found) ↦ inr (is_some-none taken free, ground (arith, free, found))
        ]
      ]

  switch_email-IsAddressed :
      (user_id : String) (entry : CodeEntry) → Keeps IsAddressed (switch_email user_id entry)
  unfolding Addressed
  switch_email-IsAddressed user_id entry w (ids, emails) =
      kept_or w (switch_email user_id entry w).1 _ _ (switch_rows user_id entry w) (ids, emails)
        (λ free. (
          Distinct-keep (λ u. u.id) (has_id user_id) (with_email entry.about) w.db.users
              (with_email-id entry.about) ids,
          switched entry.about user_id w ids emails free,
        ))

  check-IsAddressed :
      (gone code : String) (stored : StoredCode) → Keeps IsAddressed (check_code gone code stored)
  check-IsAddressed gone code missing = λ w h. h
  check-IsAddressed gone code other = λ w h. h
  check-IsAddressed gone code (known entry) =
      then-Keeps IsAddressed
        (throw_if (not (entry.code == code)) (unauthorized "Invalid verification code"))
        (pure entry) (λ w h. h) (pure-Keeps IsAddressed entry)

  confirm-IsAddressed :
      (user_id code : String) → Keeps IsAddressed (confirm_email_change user_id code)
  unfolding confirm_email_change get
  confirm-IsAddressed user_id code w h =
      let gone : String = "Email change request expired or not found" in
      let stored = as_code (value_at (change_key user_id) w) in
      bind-Keeps IsAddressed (check_code gone code stored) (switch_email user_id)
        (check-IsAddressed gone code stored) (switch_email-IsAddressed user_id) w h

  -- Registering, signing in with Google and confirming a new address keep the ids and the
  -- addresses of users distinct, however the call ends.
  pub users-IsAddressed :
      ⦃google : Google⦄ (dto : CreateUser) (profile : Profile) (user_id code : String) (w : World)
      → IsAddressed w
      → IsAddressed (register dto w).1
        × IsAddressed (handle_oauth_login profile w).1
        × IsAddressed (confirm_email_change user_id code w).1
  users-IsAddressed dto profile user_id code w h = (
    register-IsAddressed dto w h,
    oauth-IsAddressed profile w h,
    confirm-IsAddressed user_id code w h,
  )
