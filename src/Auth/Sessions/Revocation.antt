-- ===== src/Auth/Sessions/Revocation.antt =====
-- Once an administrator has revoked a user's sessions, no refresh token issued before works again,
-- whatever the clients do.
use mathlib.Core.Path.{subst}
use nadbooks_backend.Prelude.{
  ℕ, suc, ◌≤◌, ◌<◌, String, ◌≡◌, ◌≢◌, sym, Option, none, some, arith, ◌⊎◌, inl, inr, eq_self, eq_ne,
}
use nadbooks_backend.Effects.{World, Env, Entry, Session, ok, count, session}
use nadbooks_backend.Redis.{incr}
use nadbooks_backend.Auth.Crypto.{Crypto}
use nadbooks_backend.Auth.Sessions.{
  token_key, user_epoch_key, global_epoch_key, refresh, revoke_user_sessions, revoke_all_sessions,
  Tokens,
}
use nadbooks_backend.Auth.Sessions.Rotation.{refresh_missing}

-- A counter in Redis at `n`: not there yet, or there with no time to live.
abbrev pub HoldsCount : Option Entry → ℕ → Type 0
HoldsCount entry n =
    ((entry ≡ none) × (n ≡ 0)) ⊎ (entry ≡ some (record { value = count n; deadline = none }))

-- An entry that is not there, or that holds the session.
abbrev pub HoldsSession : Option Entry → Session → Type 0
HoldsSession entry s = (entry ≡ none) ⊎ ((e : Entry) × (entry ≡ some e) × (e.value ≡ session s))

-- The token holds a session of the user that is older than the user's epoch, or nothing.
pub record Dead (token : String) (s : Session) (w : World) : Type 0 where
  pub entry : HoldsSession (w.redis (token_key token)) s
  pub epoch : ℕ
  pub now : HoldsCount (w.redis (user_epoch_key s.user_id)) epoch
  pub issued : ℕ
  pub issued_at : s.user_epoch ≡ some issued
  pub older : issued < epoch

module _ ⦃env : Env⦄ ⦃crypto : Crypto⦄ where
  -- A refresh with a token that is older than the epoch throws.
  refresh_older :
      (token : String) (s : Session) (w : World) (e : Entry) (epoch issued : ℕ)
      → w.redis (token_key token) ≡ some e
      → e.value ≡ session s
      → w.redis (user_epoch_key s.user_id) ≡ some (record { value = count epoch; deadline = none })
      → s.user_epoch ≡ some issued
      → issued < epoch
      → (tokens : Tokens) → (refresh token w).0 ≢ ok tokens
  unfolding refresh
  refresh_older token s w e epoch issued held value now issued_at older tokens h = ground arith

  pub Dead-refused :
      (token : String) (s : Session) (w : World)
      → Dead token s w
      → (tokens : Tokens) → (refresh token w).0 ≢ ok tokens
  Dead-refused token s w d tokens h = elim d.entry [
    | inl gone ↦ absurd (cc (refresh_missing token w gone))
    | inr (e, held, value) ↦ elim d.now [
      | inl (empty, zero_epoch) ↦ absurd (omega (arith, d.older))
      | inr counted ↦
          refresh_older token s w e d.epoch d.issued held value counted d.issued_at d.older tokens h
    ]
  ]

  -- What keeps a dead token dead: its key is left alone or deleted, and the user's epoch is left
  -- alone.
  pub Dead-kept :
      (token : String) (s : Session) (w w' : World)
      → Dead token s w
      → (w'.redis (token_key token) ≡ w.redis (token_key token))
        ⊎ (w'.redis (token_key token) ≡ none)
      → w'.redis (user_epoch_key s.user_id) ≡ w.redis (user_epoch_key s.user_id)
      → Dead token s w'
  Dead-kept token s w w' d kept same = record {
    entry = elim kept [
      | inl e ↦ subst (λ o. HoldsSession o s) (sym e) d.entry
      | inr gone ↦ inl gone
    ];
    epoch = d.epoch;
    now = subst (λ o. HoldsCount o d.epoch) (sym same) d.now;
    issued = d.issued;
    issued_at = d.issued_at;
    older = d.older;
  }

  -- Counting up the user's epoch keeps the token dead too.
  pub Dead-counted :
      (token : String) (s : Session) (w w' : World) (d : Dead token s w)
      → w'.redis (token_key token) ≡ w.redis (token_key token)
      → w'.redis (user_epoch_key s.user_id)
        ≡ some (record { value = count (suc d.epoch); deadline = none })
      → Dead token s w'
  Dead-counted token s w w' d same counted = record {
    entry = subst (λ o. HoldsSession o s) (sym same) d.entry;
    epoch = suc d.epoch;
    now = inr counted;
    issued = d.issued;
    issued_at = d.issued_at;
    older = omega (arith, d.older);
  }

  pub incr-HoldsCount :
      (key : String) (w : World) (n : ℕ)
      → HoldsCount (w.redis key) n
      → (incr key w).1.redis key ≡ some (record { value = count (suc n); deadline = none })
  unfolding incr
  incr-HoldsCount key w n h = ground (arith, eq_self key)

  pub incr-other : (key j : String) (w : World) → key ≢ j → (incr key w).1.redis j ≡ w.redis j
  unfolding incr
  incr-other key j w ne = ground (arith, eq_ne key j ne)

  pub incr-step : (key : String) (w : World) → (incr key w).1.step ≡ w.step
  unfolding incr
  incr-step key w = ground arith

  pub refresh-step : (t : String) (w : World) → w.step ≤ (refresh t w).1.step
  unfolding refresh
  refresh-step t w = ground arith

  -- The world of a revocation is that of the counter's increment.
  pub revoke_user-world :
      (u : String) (w : World) → (revoke_user_sessions u w).1 ≡ (incr (user_epoch_key u) w).1
  unfolding revoke_user_sessions
  revoke_user-world u w = ground arith

  pub revoke_all-world : (w : World) → (revoke_all_sessions w).1 ≡ (incr global_epoch_key w).1
  unfolding revoke_all_sessions
  revoke_all-world w = ground arith
