-- ===== src/Auth/Sessions/Erasure.antt =====
-- What a client can do that sends a text spelled like an epoch's key as its token.
use nadbooks_backend.Prelude.{
  ℕ, suc, String, ◌≡◌, ◌≢◌, refl, sym, ◌∙◌, Option, some, none, arith, eq_ne, ap,
}
use nadbooks_backend.Effects.{World, Env, Entry, Session, ok, err, unauthorized, count, session}
use nadbooks_backend.Schema.{User}
use nadbooks_backend.Redis.{value_at, as_count, assign, del, incr}
use nadbooks_backend.Users.Store.{find_user}
use nadbooks_backend.Auth.Crypto.{Crypto, payload_of}
use nadbooks_backend.Auth.Sessions.{
  token_key, user_epoch_key, global_epoch_key, refresh, logout, revoke_all_sessions,
}
use nadbooks_backend.Auth.Sessions.Keys.{IsToken, token-ne-global, user-ne-global, split_global}

module _ ⦃env : Env⦄ where
  spared :
      (key j : String) (e : Option Entry) (w : World)
      → key ≢ j
      → value_at j (record w { redis = assign key e w.redis }) ≡ value_at j w
  spared key j e w ne = ground (arith, eq_ne key j ne)

  logout_run :
      (w : World)
      → logout "epoch:global" w
        ≡ (ok "Logged out successfully", record w { redis = assign global_epoch_key none w.redis })
  unfolding logout del
  logout_run w = rw split_global refl

  abbrev counted : World → World
  counted w = record w {
    redis = assign global_epoch_key (some (record { value = count 1; deadline = none })) w.redis;
  }

  revoke_run : (w : World) → w.redis global_epoch_key ≡ none → (revoke_all_sessions w).1 ≡ counted w
  unfolding revoke_all_sessions incr
  revoke_run w none_yet = ground (arith, none_yet)

module _ ⦃env : Env⦄ ⦃crypto : Crypto⦄ where
  -- A live token of the current epochs, whose user exists, is exchanged for new tokens.
  pub refresh_current :
      (token : String) (s : Session) (w : World) (user_epoch global_epoch : ℕ) (user : User)
      → value_at (token_key token) w ≡ some (session s)
      → as_count (value_at (user_epoch_key s.user_id) w) ≡ some user_epoch
      → as_count (value_at global_epoch_key w) ≡ some global_epoch
      → s.user_epoch ≡ some user_epoch
      → s.global_epoch ≡ some global_epoch
      → find_user s.user_id w.db ≡ some user
      → (refresh token w).0
        ≡ ok (record {
          access_token = crypto.sign w.step (payload_of user);
          refresh_token = env.random (suc w.step);
        })
  unfolding refresh
  refresh_current token s w ue ge user held users global issued epoch found = ground arith

  -- When nobody has revoked all sessions before, a live session of the current epochs is refused
  -- once `revokeAllSessions` has run; but after any client has logged out with the token
  -- "epoch:global" it is accepted again, as long as no time passes. Assumed: the session's token is
  -- not spelled like an epoch's key, and its user is there.
  pub logout_undoes_revocation :
      (token : String) (s : Session) (w : World) (user_epoch : ℕ) (user : User)
      → IsToken token
      → value_at (token_key token) w ≡ some (session s)
      → as_count (value_at (user_epoch_key s.user_id) w) ≡ some user_epoch
      → w.redis global_epoch_key ≡ none
      → s.user_epoch ≡ some user_epoch
      → s.global_epoch ≡ some 0
      → find_user s.user_id w.db ≡ some user
      → let w1 = (revoke_all_sessions w).1 in
        let w2 = (logout "epoch:global" w1).1 in
        ((refresh token w1).0 ≡ err (unauthorized "Session has been revoked"))
        × ((refresh token w2).0
            ≡ ok (record {
              access_token = crypto.sign w.step (payload_of user);
              refresh_token = env.random (suc w.step);
            }))
  unfolding refresh
  logout_undoes_revocation token s w ue user is_token held users global issued epoch found =
      let tk = token_key token in
      let uk = user_epoch_key s.user_id in
      let one : Option Entry = some (record { value = count 1; deadline = none }) in
      let w1 = counted w in
      let w2 : World = record w1 { redis = assign global_epoch_key none w1.redis } in
      let gt : global_epoch_key ≢ tk = λ e. token-ne-global token is_token (sym e) in
      let gu : global_epoch_key ≢ uk = λ e. user-ne-global s.user_id (sym e) in
      let held1 = spared global_epoch_key tk one w gt ∙ held in
      let held2 = spared global_epoch_key tk none w1 gt ∙ held1 in
      let users1 = ap as_count (spared global_epoch_key uk one w gu) ∙ users in
      let users2 = ap as_count (spared global_epoch_key uk none w1 gu) ∙ users1 in
      let refused : (refresh token w1).0 ≡ err (unauthorized "Session has been revoked") =
        ground (arith, held1, users1) in
      let accepted = refresh_current token s w2 ue 0 user held2 users2 refl issued epoch found in
      rw (revoke_run w global) (refused, rw (logout_run w1) accepted)
