-- ===== src/Auth/Accounts/Emails.antt =====
-- No two users share an id or an address: registration and Google sign-in keep it so.
use mathlib.Core.Path.{subst}
use nadbooks_backend.Prelude.{
  suc, String, ◌≡◌, ◌⊎◌, refl, ap, sym, true, none, some, Option, arith, inl, inr, Bool-cases,
  Option-cases, is_some, find_first, update_first, List, ◌∷◌, not, ◌==◌, ◌&&◌,
}
use nadbooks_backend.Prelude.Distinct.{
  Distinct, Distinct-insert, Distinct-keep, is_some-none, find_first-stronger,
}
use nadbooks_backend.Schema.{User}
use nadbooks_backend.Effects.{
  World, Env, main, pure, unique_violation, ◌>>=◌, ◌>>◌, throw_if, gets, bad_request,
}
use nadbooks_backend.Effects.Laws.{Keeps, bind-Keeps, then-Keeps, pure-Keeps, throw_if-Keeps}
use nadbooks_backend.Users.Store.{
  find_user, find_by_email, find_other_by_google_id, has_id, has_email, create_user, update_user,
  collides, set_user,
}
use nadbooks_backend.Auth.Crypto.{Crypto}
use nadbooks_backend.Auth.Codes.{verified}
use nadbooks_backend.Auth.Google.{Google, Profile, with_google_id}
use nadbooks_backend.Auth.Accounts.{
  CreateUser, UserResponse, response, from_google, google_username, finish_new, enter, register,
  registered, welcome, handle_oauth_login, enter_existing, enter_new, adopt_google_id,
  verify_existing, sign_in,
}

unfoldable pub Addressed : ⦃env : Env⦄ → List User → Type 0
Addressed ⦃env⦄ users = Distinct (λ u. u.id) users × Distinct (λ u. env.weight u.email) users

abbrev pub IsAddressed : ⦃env : Env⦄ → World → Type 0
IsAddressed w = Addressed w.db.users

-- The users after an action: the same rows, or others under a condition.
pub kept_or :
    ⦃env : Env⦄ (w v : World) (C : Type 0) (rows : List User)
    → (v.db.users ≡ w.db.users) ⊎ (C × (v.db.users ≡ rows))
    → IsAddressed w
    → (C → Addressed rows)
    → IsAddressed v
kept_or w v C rows (inl same) h k = subst (λ (l : List User). Addressed l) (sym same) h
kept_or w v C rows (inr (c, same)) h k = subst (λ (l : List User). Addressed l) (sym same) (k c)

update_user_rows :
    (id : String) (f : User → User) (w : World)
    → ((update_user id f main w).1.db.users ≡ w.db.users)
      ⊎ (Unit {0} × ((update_user id f main w).1.db.users ≡ update_first (has_id id) f w.db.users))
unfolding update_user set_user
update_user_rows id f w = elim (Option-cases (find_user id w.db)) [
  | inl nobody ↦ inl (ground (arith, nobody))
  | inr (user, found) ↦ inr (tt, ground (arith, found))
]

pub update_user-IsAddressed :
    ⦃env : Env⦄ (id : String) (f : User → User)
    → ((u : User) → (f u).id ≡ u.id)
    → ((u : User) → (f u).email ≡ u.email)
    → Keeps IsAddressed (update_user id f main)
unfolding Addressed
update_user-IsAddressed ⦃env⦄ id f same same' w (ids, emails) =
    kept_or w (update_user id f main w).1 _ _ (update_user_rows id f w) (ids, emails)
      (λ done. (
        Distinct-keep (λ u. u.id) (has_id id) f w.db.users same ids,
        Distinct-keep (λ u. env.weight u.email) (has_id id) f w.db.users
            (λ u. ap env.weight (same' u)) emails,
      ))

module _ ⦃env : Env⦄ where
  create_user_rows :
      (row : String → User) (w : World)
      → ((create_user row w).1.db.users ≡ w.db.users)
        ⊎ ((find_first (collides (row (env.random w.step))) w.db.users ≡ none)
            × ((create_user row w).1.db.users ≡ row (env.random w.step) ∷ w.db.users))
  unfolding create_user
  create_user_rows row w =
      let taken = find_first (collides (row (env.random w.step))) w.db.users in
      elim (Bool-cases (is_some taken)) [
        | inl clash ↦ inl (ground (arith, clash))
        | inr free ↦ inr (is_some-none taken free, ground (arith, free))
      ]

  create_user-IsAddressed : (row : String → User) → Keeps IsAddressed (create_user row)
  unfolding Addressed
  create_user-IsAddressed row w (ids, emails) =
      let new = row (env.random w.step) in
      kept_or w (create_user row w).1 _ (new ∷ w.db.users) (create_user_rows row w) (ids, emails)
        (λ free. (
          Distinct-insert (λ u. u.id) new w.db.users
              (find_first-stronger (collides new) (has_id new.id) w.db.users free
                (λ u same. rw same refl))
              ids,
          Distinct-insert (λ u. env.weight u.email) new w.db.users
              (find_first-stronger (collides new) (has_email new.email) w.db.users free
                (λ u same. ground (arith, same)))
              emails,
        ))

module _ ⦃env : Env⦄ ⦃crypto : Crypto⦄ where
  sign_in-IsAddressed :
      (user : User) (answer : UserResponse) → Keeps IsAddressed (sign_in user answer)
  unfolding sign_in
  sign_in-IsAddressed user answer w h = h

  welcome-IsAddressed : (user : User) → Keeps IsAddressed (welcome user)
  unfolding welcome
  welcome-IsAddressed user w h = h

  pub register-IsAddressed : (dto : CreateUser) → Keeps IsAddressed (register dto)
  unfolding register
  register-IsAddressed dto w h =
      let row = registered dto (crypto.hash w.step dto.password) in
      bind-Keeps IsAddressed (create_user row) welcome (create_user-IsAddressed row)
        welcome-IsAddressed (record w { step = suc w.step }) h

  adopt-IsAddressed :
      (user : User) (profile : Profile) → Keeps IsAddressed (adopt_google_id user profile)
  unfolding adopt_google_id
  adopt-IsAddressed user profile w h =
      let taken = is_some (find_other_by_google_id profile.provider_id user.id w.db) in
      let f = with_google_id (some profile.provider_id) in
      elim (Bool-cases (not (is_some user.google_id) && (profile.provider == "google"))) [
        | inl adopts ↦ rw adopts (
            then-Keeps IsAddressed (throw_if taken unique_violation >> update_user user.id f main)
              (pure tt)
              (then-Keeps IsAddressed (throw_if taken unique_violation) (update_user user.id f main)
                (throw_if-Keeps IsAddressed taken unique_violation)
                (update_user-IsAddressed user.id f (λ u. refl) (λ u. refl)))
              (pure-Keeps IsAddressed tt) w h)
        | inr leaves ↦ rw leaves h
      ]

  verify-IsAddressed : (user : User) → Keeps IsAddressed (verify_existing user)
  unfolding verify_existing
  verify-IsAddressed user w h = elim (Bool-cases user.is_verified) [
    | inl before ↦ rw before h
    | inr fresh ↦ rw fresh (
        then-Keeps IsAddressed (update_user user.id verified main) (pure tt)
          (update_user-IsAddressed user.id verified (λ u. refl) (λ u. refl))
          (pure-Keeps IsAddressed tt) w h)
  ]

  enter_existing-IsAddressed :
      (profile : Profile) (user : User) → Keeps IsAddressed (enter_existing profile user)
  unfolding enter_existing
  enter_existing-IsAddressed profile user =
      then-Keeps IsAddressed (adopt_google_id user profile >> verify_existing user)
        (sign_in (verified user) (response (verified user) (some true) user.google_id))
        (then-Keeps IsAddressed (adopt_google_id user profile) (verify_existing user)
          (adopt-IsAddressed user profile) (verify-IsAddressed user))
        (sign_in-IsAddressed (verified user) (response (verified user) (some true) user.google_id))

  finish_new-IsAddressed : (user : User) → Keeps IsAddressed (finish_new user)
  unfolding finish_new
  finish_new-IsAddressed user = sign_in-IsAddressed user (response user none user.google_id)

  module _ ⦃google : Google⦄ where
    enter_new-IsAddressed : (profile : Profile) → Keeps IsAddressed (enter_new profile)
    unfolding enter_new
    enter_new-IsAddressed profile w h =
        let username = google_username (google.local_part profile.email) (env.random w.step) in
        let row = from_google profile username in
        bind-Keeps IsAddressed (create_user row) finish_new (create_user-IsAddressed row)
          finish_new-IsAddressed (record w { step = suc w.step }) h

    enter-IsAddressed :
        (profile : Profile) (found : Option User) → Keeps IsAddressed (enter profile found)
    unfolding enter
    enter-IsAddressed profile none = enter_new-IsAddressed profile
    enter-IsAddressed profile (some user) = enter_existing-IsAddressed profile user

    pub oauth-IsAddressed : (profile : Profile) → Keeps IsAddressed (handle_oauth_login profile)
    unfolding handle_oauth_login
    oauth-IsAddressed profile =
        let missing_email = bad_request "OAuth profile missing email" in
        then-Keeps IsAddressed (throw_if (profile.email == "") missing_email)
          (gets (λ w. find_by_email profile.email w.db) >>= enter profile)
          (throw_if-Keeps IsAddressed (profile.email == "") missing_email)
          (bind-Keeps IsAddressed (gets (λ w. find_by_email profile.email w.db)) (enter profile)
            (λ w h. h) (enter-IsAddressed profile))
