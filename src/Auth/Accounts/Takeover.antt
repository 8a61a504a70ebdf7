-- ===== src/Auth/Accounts/Takeover.antt =====
-- An account that was registered by password before its address was proved.
use mathlib.Core.Path.{subst}
use nadbooks_backend.Prelude.{
  ℕ, String, Bool, ◌≡◌, refl, sym, ap, ◌∙◌, true, false, some, none, arith, inl, inr, Bool-cases,
  find_first, update_first, find_first-update_self, find_first-update_both, find_first-fits,
  is_some, if◌then◌else◌, eq_self, eq_iff, ◌==◌, ◌∷◌, List,
}
use nadbooks_backend.Schema.{User, Db}
use nadbooks_backend.Effects.{World, Env, ok, err, unique_violation}
use nadbooks_backend.Effects.Laws.{Yields}
use nadbooks_backend.Users.Store.{
  find_user, find_by_email, find_other_by_google_id, set_user, has_email, has_id, update_user,
}
use nadbooks_backend.Auth.Crypto.{Crypto}
use nadbooks_backend.Auth.Codes.{verified}
use nadbooks_backend.Auth.Google.{Google, Profile, with_google_id}
use nadbooks_backend.Auth.Accounts.{
  CreateUser, SignedIn, UserResponse, register, login, handle_oauth_login, enter, enter_existing,
  adopt_google_id, verify_existing, sign_in,
}
use nadbooks_backend.Auth.Accounts.Register.{new_row}
use nadbooks_backend.Auth.Accounts.Login.{login_right}
use nadbooks_backend.Auth.Accounts.RoundTrip.{register_ok, find_new}

module _ ⦃env : Env⦄ ⦃crypto : Crypto⦄ where
  -- The rows that signing in with Google leaves of a new account that was not verified.
  abbrev adopted : String → User → User
  adopted google_id user = verified (with_google_id (some google_id) user)

  abbrev with_db : Db → World → World
  with_db d w = record w { db = d }

  abbrev taken_elsewhere : Profile → User → World → Bool
  taken_elsewhere profile user w =
      is_some (find_other_by_google_id profile.provider_id user.id w.db)

  adopt_run :
      (profile : Profile) (user : User) (w : World)
      → find_user user.id w.db ≡ some user
      → user.google_id ≡ none
      → (profile.provider == "google") ≡ true
      → adopt_google_id user profile w ≡ (
          if taken_elsewhere profile user w then (err unique_violation, w) else (
            ok tt,
            with_db (set_user user.id (with_google_id (some profile.provider_id)) w.db) w,
          ))
  unfolding adopt_google_id update_user
  adopt_run profile user w found linked google =
      elim (Bool-cases (taken_elsewhere profile user w)) [
        | inl taken ↦ ground (arith, found, linked, google, taken)
        | inr free ↦ ground (arith, found, linked, google, free)
      ]

  verify_run :
      (user row : User) (w : World)
      → find_user user.id w.db ≡ some row
      → user.is_verified ≡ false
      → verify_existing user w ≡ (ok tt, with_db (set_user user.id verified w.db) w)
  unfolding verify_existing update_user
  verify_run user row w found fresh = ground (arith, found, fresh)

  sign_in-db :
      (user : User) (answer : UserResponse) (w : World) → (sign_in user answer w).1.db ≡ w.db
  unfolding sign_in
  sign_in-db user answer w = refl

  enter_existing_ok :
      (profile : Profile) (user row : User) (w w' : World) (s : SignedIn)
      → find_user user.id w.db ≡ some user
      → find_user user.id (set_user user.id (with_google_id (some profile.provider_id)) w.db)
        ≡ some row
      → user.google_id ≡ none
      → user.is_verified ≡ false
      → (profile.provider == "google") ≡ true
      → enter_existing profile user w ≡ (ok s, w')
      → w'.db
        ≡ set_user user.id verified
            (set_user user.id (with_google_id (some profile.provider_id)) w.db)
  unfolding enter_existing
  enter_existing_ok profile user row w w' s found there linked fresh google done =
      let run = adopt_run profile user w found linked google in
      let d = set_user user.id (with_google_id (some profile.provider_id)) w.db in
      let next = verify_run user row (with_db d w) there fresh in
      elim (Bool-cases (taken_elsewhere profile user w)) [
        | inl taken ↦ absurd (ground (arith, run, taken))
        | inr free ↦ ground (arith, run, free, next)
      ]

  find_linked :
      (google_id : String) (user : User) (d : Db)
      → find_user user.id d ≡ some user
      → find_user user.id (set_user user.id (with_google_id (some google_id)) d)
        ≡ some (with_google_id (some google_id) user)
  unfolding find_user set_user
  find_linked google_id user d found =
      find_first-update_self (has_id user.id) (with_google_id (some google_id)) d.users user found
        (find_first-fits (has_id user.id) d.users user found)

  find_adopted :
      (google_id : String) (user : User) (d : Db)
      → find_user user.id d ≡ some user
      → find_by_email user.email d ≡ some user
      → find_by_email user.email
          (set_user user.id verified (set_user user.id (with_google_id (some google_id)) d))
        ≡ some (adopted google_id user)
  unfolding find_user find_by_email set_user
  find_adopted google_id user d found known =
      let own = has_id user.id in
      let link = with_google_id (some google_id) in
      let fits = find_first-fits (has_email user.email) d.users user known in
      find_first-update_both own (has_email user.email) verified (update_first own link d.users)
        (link user)
        (find_first-update_self own link d.users user found
          (find_first-fits own d.users user found))
        (find_first-update_both own (has_email user.email) link d.users user found known fits) fits

  find_own :
      (user : User) (rest : List User) (d : Db)
      → d.users ≡ user ∷ rest
      → find_user user.id d ≡ some user
  unfolding find_user find_first
  find_own user rest d rows = rw (rows, eq_self user.id) refl

  oauth_known :
      ⦃google : Google⦄ (profile : Profile) (user : User) (w w' : World) (t : SignedIn)
      → find_by_email profile.email w.db ≡ some user
      → handle_oauth_login profile w ≡ (ok t, w')
      → enter_existing profile user w ≡ (ok t, w')
  unfolding handle_oauth_login enter
  oauth_known profile user w w' t found done = ground (arith, found)

  -- Who registers with an address of somebody else keeps access: once the owner has signed in
  -- with Google, the account is verified and still opens with the first password. Assumed:
  -- argon2 verifies a text against each hash it made of it.
  pub first_password_survives :
      ⦃google : Google⦄ (dto : CreateUser) (profile : Profile) (w w1 w2 : World) (s t : SignedIn)
      → ((n : ℕ) (text : String) → crypto.verify (crypto.hash n text) text ≡ true)
      → register dto w ≡ (ok s, w1)
      → profile.email ≡ dto.email
      → profile.provider ≡ "google"
      → handle_oauth_login profile w1 ≡ (ok t, w2)
      → Yields
          (login dto.email dto.password)
          w2
          (λ u v. (u.user.id ≡ s.user.id) × (u.user.is_verified ≡ some true) × (v.db ≡ w2.db))
  first_password_survives dto profile w w1 w2 s t law done owner google entered =
      let row = new_row dto w in
      let (said, there) = register_ok dto w w1 s done in
      let rows : w1.db.users ≡ row ∷ w.db.users = ap (λ d. d.users) there in
      let known = ap (λ d. find_by_email dto.email d) there ∙ find_new dto w in
      let run =
        oauth_known profile row w1 w2 t
          (subst (λ email. find_by_email email w1.db ≡ some row) (sym owner) known) entered in
      let found = find_own row w.db.users w1.db rows in
      let linked = find_linked profile.provider_id row w1.db found in
      let last =
        enter_existing_ok profile row (with_google_id (some profile.provider_id) row) w1 w2 t found
          linked refl refl ((eq_iff profile.provider "google").1 google) run in
      let here =
        ap (λ d. find_by_email dto.email d) last
        ∙ find_adopted profile.provider_id row w1.db found known in
      let (u, v, enters, (answer, kept)) =
        login_right dto.email dto.password w2 (adopted profile.provider_id row)
          (crypto.hash w.step dto.password) here refl (law w.step dto.password) in
      (
        u,
        v,
        enters,
        (ap (λ r. r.id) answer ∙ ap (λ r. r.id) (sym said), ap (λ r. r.is_verified) answer, kept),
      )
