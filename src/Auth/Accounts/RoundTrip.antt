-- ===== src/Auth/Accounts/RoundTrip.antt =====
-- Passwords from registration to login, and what the spelling of an address does.
use nadbooks_backend.Prelude.{
  ℕ, String, ◌≡◌, refl, sym, ap, ◌∙◌, true, false, some, none, arith, inl, inr, Bool-cases,
  find_first, eq_iff,
}
use nadbooks_backend.Effects.{World, Env, ok}
use nadbooks_backend.Effects.Laws.{Yields}
use nadbooks_backend.Users.Store.{find_by_email}
use nadbooks_backend.Auth.Crypto.{Crypto}
use nadbooks_backend.Auth.Accounts.{CreateUser, SignedIn, response, register, login, login_request}
use nadbooks_backend.Auth.Accounts.Register.{
  new_row, with_row, is_taken, register_free, register_taken, welcome_run, welcome-db,
}
use nadbooks_backend.Auth.Accounts.Login.{login_right}

module _ ⦃env : Env⦄ ⦃crypto : Crypto⦄ where
  pub register_ok :
      (dto : CreateUser) (w w' : World) (s : SignedIn)
      → register dto w ≡ (ok s, w')
      → (s.user ≡ response (new_row dto w) (some false) none) × (w'.db ≡ (with_row dto w).db)
  register_ok dto w w' s done = elim (Bool-cases (is_taken dto w)) [
    | inl taken ↦ absurd (cc (register_taken dto w taken, done))
    | inr free ↦
        let same = sym done ∙ register_free dto w free in
        let said = ap (λ r. r.0) same ∙ welcome_run (new_row dto w) (with_row dto w) in
        let there = ap (λ r. r.1) same in
        (
          ground (arith, said),
          ap (λ (v : World). v.db) there ∙ welcome-db (new_row dto w) (with_row dto w),
        )
  ]

  -- The row is found by every address that the database takes for the registered one.
  find_same :
      (dto : CreateUser) (w : World) (email : String)
      → env.weight dto.email ≡ env.weight email
      → find_by_email email (with_row dto w).db ≡ some (new_row dto w)
  unfolding find_by_email find_first
  find_same dto w email same = rw ((eq_iff (env.weight dto.email) (env.weight email)).1 same) refl

  pub find_new :
      (dto : CreateUser) (w : World)
      → find_by_email dto.email (with_row dto w).db ≡ some (new_row dto w)
  find_new dto w = find_same dto w dto.email refl

  -- Who has registered can log in with the same address and password, and the answer describes
  -- the same user. Assumed: argon2 verifies a text against each hash it made of it.
  pub register-login :
      (dto : CreateUser) (w w' : World) (s : SignedIn)
      → ((n : ℕ) (text : String) → crypto.verify (crypto.hash n text) text ≡ true)
      → register dto w ≡ (ok s, w')
      → Yields (login dto.email dto.password) w' (λ t v. (t.user ≡ s.user) × (v.db ≡ w'.db))
  register-login dto w w' s law done =
      let (said, there) = register_ok dto w w' s done in
      let found = ap (λ d. find_by_email dto.email d) there ∙ find_new dto w in
      let (t, v, run, (answer, kept)) =
        login_right dto.email dto.password w' (new_row dto w) (crypto.hash w.step dto.password)
          found refl (law w.step dto.password) in
      (t, v, run, (answer ∙ sym said, kept))

  -- Who registers with capital letters in the address can log in, although the request to log in
  -- lowers the address and the request to register does not. Assumed: the database's collation
  -- takes the lowered address for the same, and argon2 verifies a text against each hash it made
  -- of it.
  pub register-login_request :
      (dto : CreateUser) (w w' : World) (s : SignedIn)
      → ((n : ℕ) (text : String) → crypto.verify (crypto.hash n text) text ≡ true)
      → env.weight dto.email ≡ env.weight (crypto.to_lower_case dto.email)
      → register dto w ≡ (ok s, w')
      → Yields (login_request dto.email dto.password) w' (λ t v. (t.user ≡ s.user) × (v.db ≡ w'.db))
  unfolding login_request
  register-login_request dto w w' s law same done =
      let (said, there) = register_ok dto w w' s done in
      let lowered = crypto.to_lower_case dto.email in
      let found = ap (λ d. find_by_email lowered d) there ∙ find_same dto w lowered same in
      let (t, v, run, (answer, kept)) =
        login_right lowered dto.password w' (new_row dto w) (crypto.hash w.step dto.password) found
          refl (law w.step dto.password) in
      (t, v, run, (answer ∙ sym said, kept))
