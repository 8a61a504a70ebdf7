-- ===== src/Auth/Accounts/Login.antt =====
-- Who can log in: the password has to verify against the hash in the row.
use nadbooks_backend.Prelude.{
  String, ◌≡◌, refl, ◌∙◌, true, some, none, arith, inl, inr, Option-cases,
}
use nadbooks_backend.Schema.{User}
use nadbooks_backend.Effects.{World, Env, Action, ok, pure, ◌>>=◌}
use nadbooks_backend.Effects.Laws.{Leaves, Yields, bind-Yields, run-Yields, pure-Leaves, if-Leaves}
use nadbooks_backend.Users.Store.{find_by_email}
use nadbooks_backend.Auth.Crypto.{Crypto}
use nadbooks_backend.Auth.Sessions.{issue_tokens}
use nadbooks_backend.Auth.Codes.{queue_verification_email}
use nadbooks_backend.Auth.Codes.Sending.{queue_verification_email-Leaves}
use nadbooks_backend.Auth.Accounts.{
  SignedIn, UserResponse, response, sign_in, remind, login_with, login,
}

module _ ⦃env : Env⦄ ⦃crypto : Crypto⦄ where
  pub issue_tokens-Leaves : (user : User) → Leaves (issue_tokens user)
  unfolding issue_tokens
  issue_tokens-Leaves user w = (_, (issue_tokens user w).1, refl, refl)

  remind-Leaves : (user : User) → Leaves (remind user)
  unfolding remind
  remind-Leaves user =
      if-Leaves user.is_verified (pure true) (queue_verification_email user.email)
        (pure-Leaves true) (queue_verification_email-Leaves user.email)

  -- What signing in gives for a given answer.
  abbrev pub Enters : Action SignedIn → UserResponse → World → Type 0
  Enters m answer w = Yields m w (λ s v. (s.user ≡ answer) × (v.db ≡ w.db))

  pub sign_in-Enters :
      (user : User) (answer : UserResponse) (w : World) → Enters (sign_in user answer) answer w
  unfolding sign_in
  sign_in-Enters user answer w =
      let (tokens, v, run, same) = issue_tokens-Leaves user w in
      bind-Yields (issue_tokens user) (λ t. pure (record { tokens = t; user = answer })) w
        (λ s u. (s.user ≡ answer) × (u.db ≡ w.db))
        (tokens, v, run, (record { tokens = tokens; user = answer }, v, refl, (refl, same)))

  login_with_right :
      (password : String) (w : World) (user : User) (hash : String)
      → user.password_hash ≡ some hash
      → crypto.verify hash password ≡ true
      → login_with password user w
        ≡ (remind user >>= λ b. sign_in user (response user (some user.is_verified) none)) w
  unfolding login_with
  login_with_right password w user hash has_password right = ground (arith, has_password, right)

  pub login_right :
      (email password : String) (w : World) (user : User) (hash : String)
      → find_by_email email w.db ≡ some user
      → user.password_hash ≡ some hash
      → crypto.verify hash password ≡ true
      → Enters (login email password) (response user (some user.is_verified) none) w
  unfolding login
  login_right email password w user hash found has_password right =
      let answer = response user (some user.is_verified) none in
      let (b, v, run, same) = remind-Leaves user w in
      let (s, u, last, (said, kept)) = sign_in-Enters user answer v in
      run-Yields (login email password) (remind user >>= λ c. sign_in user answer) w w
        (λ x y. (x.user ≡ answer) × (y.db ≡ w.db))
        (rw found (login_with_right password w user hash has_password right))
        (bind-Yields (remind user) (λ c. sign_in user answer) w
          (λ x y. (x.user ≡ answer) × (y.db ≡ w.db)) (b, v, run, (s, u, last, (said, kept ∙ same))))

  pub login_ok :
      (email password : String) (w : World) (s : SignedIn)
      → (login email password w).0 ≡ ok s
      → (user : User) × (hash : String) × (find_by_email email w.db ≡ some user)
        × (user.password_hash ≡ some hash)
        × (crypto.verify hash password ≡ true)
  unfolding login login_with
  login_ok email password w s done = elim (Option-cases (find_by_email email w.db)) [
    | inl missing ↦ absurd (ground arith)
    | inr (user, found) ↦ elim (Option-cases user.password_hash) [
      | inl missing ↦ absurd (ground arith)
      | inr (hash, has_password) ↦ (user, hash, found, has_password, ground arith)
    ]
  ]
