-- ===== src/Auth/Passwords/RoundTrip.antt =====
-- A password that was changed or set is the one that a login asks for.
use mathlib.Core.Path.{subst}
use nadbooks_backend.Prelude.{
  ℕ, String, ◌≡◌, refl, ap, ◌∙◌, true, false, some, none, arith, inl, inr, Option-cases,
  find_first-update_both, find_first-fits,
}
use nadbooks_backend.Schema.{User, Db}
use nadbooks_backend.Effects.{World, Env, ok, err, unauthorized}
use nadbooks_backend.Effects.Laws.{Yields}
use nadbooks_backend.Users.Store.{find_user, find_by_email, set_user, has_email, has_id}
use nadbooks_backend.Auth.Crypto.{Crypto}
use nadbooks_backend.Auth.Sessions.{Tokens, issue_tokens}
use nadbooks_backend.Auth.Passwords.{with_password, store_password, change_password, set_password}
use nadbooks_backend.Auth.Accounts.{login, login_with}
use nadbooks_backend.Auth.Accounts.Login.{login_right}

find_by_email-set :
    ⦃env : Env⦄ (hash : String) (d : Db) (user : User)
    → find_user user.id d ≡ some user
    → find_by_email user.email d ≡ some user
    → find_by_email user.email (set_user user.id (with_password hash) d)
      ≡ some (with_password hash user)
unfolding find_user find_by_email set_user
find_by_email-set hash d user found first =
    find_first-update_both (has_id user.id) (has_email user.email) (with_password hash) d.users user
      found first (find_first-fits (has_email user.email) d.users user first)

module _ ⦃env : Env⦄ ⦃crypto : Crypto⦄ where
  store_password-db :
      (user : User) (password : String) (w w' : World) (answer : User × Tokens)
      → find_user user.id w.db ≡ some user
      → store_password user password w ≡ (ok answer, w')
      → w'.db ≡ set_user user.id (with_password (crypto.hash w.step password)) w.db
  unfolding store_password issue_tokens
  store_password-db user password w w' answer found done = ground arith

  change_password_ok :
      (user_id old new : String) (w w' : World) (answer : User × Tokens)
      → change_password user_id old new w ≡ (ok answer, w')
      → (user : User) × (hash : String) × (find_user user_id w.db ≡ some user)
        × (user.password_hash ≡ some hash)
        × (crypto.verify hash old ≡ true)
        × (store_password user new w ≡ (ok answer, w'))
  unfolding change_password
  change_password_ok user_id old new w w' answer done =
      elim (Option-cases (find_user user_id w.db)) [
        | inl missing ↦ absurd (ground arith)
        | inr (user, found) ↦ elim (Option-cases user.password_hash) [
          | inl missing ↦ absurd (ground arith)
          | inr (hash, has) ↦ (user, hash, found, has, ground arith, ground arith)
        ]
      ]

  login_wrong :
      (email password : String) (w : World) (user : User) (hash : String)
      → find_by_email email w.db ≡ some user
      → user.password_hash ≡ some hash
      → crypto.verify hash password ≡ false
      → login email password w ≡ (err (unauthorized "Invalid credentials"), w)
  unfolding login login_with
  login_wrong email password w user hash found has wrong = ground (arith, found, has, wrong)

  -- What the stored password does at the next login.
  login_stored :
      (password : String) (user : User) (w w' : World) (answer : User × Tokens)
      → ((n : ℕ) (text : String) → crypto.verify (crypto.hash n text) text ≡ true)
      → find_user user.id w.db ≡ some user
      → find_by_email user.email w.db ≡ some user
      → store_password user password w ≡ (ok answer, w')
      → Yields (login user.email password) w' (λ t v. (t.user.id ≡ user.id) × (v.db ≡ w'.db))
        × ((other : String)
            → crypto.verify (crypto.hash w.step password) other ≡ false
            → login user.email other w' ≡ (err (unauthorized "Invalid credentials"), w'))
  login_stored password user w w' answer law found first done =
      let hash = crypto.hash w.step password in
      let there =
        ap (λ d. find_by_email user.email d)
          (store_password-db user password w w' answer found done)
        ∙ find_by_email-set hash w.db user found first in
      let row = with_password hash user in
      let (t, v, run, (said, kept)) =
        login_right user.email password w' row hash there refl (law w.step password) in
      (
        (t, v, run, (ap (λ r. r.id) said, kept)),
        λ other wrong. login_wrong user.email other w' row hash there refl wrong,
      )

  -- A password is changed only by who knows the old one. Afterwards the user logs in with the new
  -- one, and any text that does not verify against the new hash is refused. Assumed: the row is
  -- the one that its address finds, and argon2 verifies a text against each hash it made of it.
  pub change_password-login :
      (user : User) (old new : String) (w w' : World) (answer : User × Tokens)
      → ((n : ℕ) (text : String) → crypto.verify (crypto.hash n text) text ≡ true)
      → find_user user.id w.db ≡ some user
      → find_by_email user.email w.db ≡ some user
      → change_password user.id old new w ≡ (ok answer, w')
      → ((hash : String) × (user.password_hash ≡ some hash) × (crypto.verify hash old ≡ true))
        × (Yields (login user.email new) w' (λ t v. (t.user.id ≡ user.id) × (v.db ≡ w'.db))
            × ((other : String)
                → crypto.verify (crypto.hash w.step new) other ≡ false
                → login user.email other w' ≡ (err (unauthorized "Invalid credentials"), w')))
  change_password-login user old new w w' answer law found first done =
      let (row, hash, here, has, knows, stored) =
        change_password_ok user.id old new w w' answer done in
      let same : row ≡ user = ground (arith, here, found) in
      let run = subst (λ (u : User). store_password u new w ≡ (ok answer, w')) same stored in
      let own = subst (λ (u : User). u.password_hash ≡ some hash) same has in
      ((hash, own, knows), login_stored new user w w' answer law found first run)

  set_password_ok :
      (user : User) (password : String) (w w' : World) (answer : User × Tokens)
      → find_user user.id w.db ≡ some user
      → set_password user.id password w ≡ (ok answer, w')
      → (user.password_hash ≡ none) × (store_password user password w ≡ (ok answer, w'))
  unfolding set_password
  set_password_ok user password w w' answer found done = elim (Option-cases user.password_hash) [
    | inl missing ↦ (missing, ground (arith, found, missing))
    | inr (hash, has) ↦ absurd (ground (arith, found, has))
  ]

  -- A password is set only where there is none. Afterwards the user logs in with it, and any text
  -- that does not verify against its hash is refused. Assumed: the row is the one that its
  -- address finds, and argon2 verifies a text against each hash it made of it.
  pub set_password-login :
      (user : User) (password : String) (w w' : World) (answer : User × Tokens)
      → ((n : ℕ) (text : String) → crypto.verify (crypto.hash n text) text ≡ true)
      → find_user user.id w.db ≡ some user
      → find_by_email user.email w.db ≡ some user
      → set_password user.id password w ≡ (ok answer, w')
      → (user.password_hash ≡ none)
        × (Yields (login user.email password) w' (λ t v. (t.user.id ≡ user.id) × (v.db ≡ w'.db))
            × ((other : String)
                → crypto.verify (crypto.hash w.step password) other ≡ false
                → login user.email other w' ≡ (err (unauthorized "Invalid credentials"), w')))
  set_password-login user password w w' answer law found first done =
      let (empty, stored) = set_password_ok user password w w' answer found done in
      (empty, login_stored password user w w' answer law found first stored)
