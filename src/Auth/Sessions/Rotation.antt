-- ===== src/Auth/Sessions/Rotation.antt =====
-- A refresh token works at most once.
use nadbooks_backend.Prelude.{
  suc, String, ◌≡◌, ◌≢◌, refl, none, arith, ◌⊎◌, inl, inr, eq_self, eq_ne, eq_iff,
}
use nadbooks_backend.Effects.{World, Env, Session, err, unauthorized}
use nadbooks_backend.Schema.{User}
use nadbooks_backend.Redis.{value_at}
use nadbooks_backend.Auth.Crypto.{Crypto}
use nadbooks_backend.Auth.Sessions.{
  token_key, issue_tokens, rotate, refresh_stored, refresh, as_session, known, missing, other,
  Stored,
}
use nadbooks_backend.Auth.Sessions.Keys.{token_key-injective}

module _ ⦃env : Env⦄ ⦃crypto : Crypto⦄ where
  -- Issuing tokens writes one key, that of the new token.
  pub issue_tokens-redis :
      (user : User) (w : World) (j : String)
      → token_key (env.random (suc w.step)) ≢ j
      → (issue_tokens user w).1.redis j ≡ w.redis j
  unfolding issue_tokens
  issue_tokens-redis user w j ne = rw (eq_ne _ j ne)

  -- What an operation on `token` may do to a key that no new token gets.
  abbrev pub Kept : String → String → World → World → Type 0
  Kept token j w w' = (w'.redis j ≡ w.redis j) ⊎ ((token_key token ≡ j) × (w'.redis j ≡ none))

  rotate-redis :
      (token : String) (stored : Session) (w : World) (j : String)
      → token_key (env.random (suc w.step)) ≢ j
      → Kept token j w (rotate token stored w).1
  unfolding rotate
  rotate-redis token stored w j ne =
      ground (arith, eq_iff (token_key token) j, eq_iff (token_key (env.random (suc w.step))) j)

  refresh_stored-redis :
      (token : String) (stored : Stored) (w : World) (j : String)
      → token_key (env.random (suc w.step)) ≢ j
      → Kept token j w (refresh_stored token stored w).1
  unfolding refresh_stored
  refresh_stored-redis token missing w j ne = inl refl
  refresh_stored-redis token other w j ne = ground (arith, eq_iff (token_key token) j)
  refresh_stored-redis token (known s) w j ne =
      ground (arith, eq_iff (token_key token) j, eq_iff (token_key (env.random (suc w.step))) j)

  pub refresh-redis :
      (token : String) (w : World) (j : String)
      → token_key (env.random (suc w.step)) ≢ j
      → Kept token j w (refresh token w).1
  unfolding refresh
  refresh-redis token w j ne = refresh_stored-redis token _ w j ne

  key-ne : {t u : String} → t ≢ u → token_key t ≢ token_key u
  key-ne ne e = ne (token_key-injective _ _ e)

  rotate-gone :
      (token : String) (stored : Session) (w : World)
      → env.random (suc w.step) ≢ token
      → (rotate token stored w).1.redis (token_key token) ≡ none
  unfolding rotate
  rotate-gone token stored w ne = ground (
    arith,
    eq_self (token_key token),
    key-ne ne,
    eq_ne (token_key (env.random (suc w.step))) (token_key token),
  )

  -- A refresh either finds nothing and changes nothing, or it takes the token away.
  refresh_stored-gone :
      (token : String) (stored : Stored) (w : World)
      → env.random (suc w.step) ≢ token
      → ((stored ≡ missing)
          × (refresh_stored token stored w
              ≡ (err (unauthorized "Invalid or expired refresh token"), w)))
        ⊎ ((refresh_stored token stored w).1.redis (token_key token) ≡ none)
  unfolding refresh_stored
  refresh_stored-gone token missing w ne = inl (refl, refl)
  refresh_stored-gone token other w ne = inr (ground (arith, eq_self (token_key token)))
  refresh_stored-gone token (known s) w ne =
      inr (ground (arith, eq_self (token_key token), rotate-gone token s w ne))

  refresh-gone :
      (token : String) (w : World)
      → env.random (suc w.step) ≢ token
      → (refresh token w ≡ (err (unauthorized "Invalid or expired refresh token"), w))
        ⊎ ((refresh token w).1.redis (token_key token) ≡ none)
  unfolding refresh
  refresh-gone token w ne =
      elim (refresh_stored-gone token (as_session (value_at (token_key token) w)) w ne) [
        | inl same ↦ inl same.1
        | inr gone ↦ inr gone
      ]

  pub refresh_missing :
      (token : String) (w : World)
      → w.redis (token_key token) ≡ none
      → refresh token w ≡ (err (unauthorized "Invalid or expired refresh token"), w)
  unfolding refresh
  refresh_missing token w h = ground arith

  -- A refresh token is good for one call: after `refresh` with it, whatever that call returned,
  -- a second call is refused as unknown and changes nothing. Assumed: the token that the first
  -- call makes up is another one.
  pub refresh_once :
      (token : String) (w : World)
      → env.random (suc w.step) ≢ token
      → let w' = (refresh token w).1 in
        refresh token w' ≡ (err (unauthorized "Invalid or expired refresh token"), w')
  refresh_once token w ne = elim (refresh-gone token w ne) [
    | inl same ↦ rw same same
    | inr gone ↦ refresh_missing token _ gone
  ]
