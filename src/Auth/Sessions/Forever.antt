-- ===== src/Auth/Sessions/Forever.antt =====
-- The sequences of operations after a revocation, by any clients and administrators.
use mathlib.Core.Bool.{false≢true}
use nadbooks_backend.Prelude.{
  ℕ, suc, ◌≤◌, String, ◌≡◌, ◌≢◌, refl, sym, ◌∙◌, some, arith, inl, inr, eq_ne, eq_iff, ap, ◌==◌,
  Bool-cases,
}
use nadbooks_backend.Effects.{World, Env, Entry, Session, ok, session}
use nadbooks_backend.Schema.{User}
use nadbooks_backend.Auth.Crypto.{Crypto}
use nadbooks_backend.Auth.Sessions.{
  token_key, user_epoch_key, global_epoch_key, issue_tokens, refresh, logout, revoke_user_sessions,
  revoke_all_sessions, Tokens,
}
use nadbooks_backend.Auth.Sessions.Keys.{
  IsToken, token-ne-user, token-ne-global, token_key-injective, user-ne-global,
}
use nadbooks_backend.Auth.Sessions.Rotation.{issue_tokens-redis, refresh-redis}
use nadbooks_backend.Auth.Sessions.Revocation.{
  Dead, HoldsCount, Dead-refused, Dead-kept, Dead-counted, incr-HoldsCount, incr-other, incr-step,
  refresh-step, revoke_user-world, revoke_all-world,
}

module _ ⦃env : Env⦄ ⦃crypto : Crypto⦄ where
  -- One operation. `elsewhere` is any other work of the server, which leaves the keys of sessions
  -- and epochs alone while the outside world goes on.
  pub data Step (w w' : World) : Type 0 where
    refreshes : (t : String) → IsToken t → w' ≡ (refresh t w).1 → Step w w'
    logs_out : (t : String) → IsToken t → w' ≡ (logout t w).1 → Step w w'
    signs_in : (user : User) → w' ≡ (issue_tokens user w).1 → Step w w'
    revokes_user : (user_id : String) → w' ≡ (revoke_user_sessions user_id w).1 → Step w w'
    revokes_all : w' ≡ (revoke_all_sessions w).1 → Step w w'
    elsewhere :
        w.step ≤ w'.step
        → ((t : String) → w'.redis (token_key t) ≡ w.redis (token_key t))
        → ((u : String) → w'.redis (user_epoch_key u) ≡ w.redis (user_epoch_key u))
        → Step w w'

  pub data Reach (w : World) : World → Type 0 where
    here : Reach w w
    next : {u v : World} → Reach w u → Step u v → Reach w v

  -- The random values from now on are tokens, and none of them is `token`.
  abbrev pub Fresh : String → World → Type 0
  Fresh token w = (n : ℕ) → w.step ≤ n → IsToken (env.random n) × (env.random n ≢ token)

  module _ (token : String) (s : Session) (is_token : IsToken token) where
    new-ne-token : (n : ℕ) → env.random n ≢ token → token_key (env.random n) ≢ token_key token
    new-ne-token n ne e = ne (token_key-injective _ _ e)

    refresh-Dead :
        (t : String) (w : World)
        → IsToken t
        → IsToken (env.random (suc w.step))
        → env.random (suc w.step) ≢ token
        → Dead token s w
        → Dead token s (refresh t w).1
    refresh-Dead t w is_t is_new fresh d =
        Dead-kept token s w _ d
          (elim (refresh-redis t w (token_key token) (new-ne-token _ fresh)) [
            | inl same ↦ inl same
            | inr gone ↦ inr gone.1
          ])
          (elim (refresh-redis t w (user_epoch_key s.user_id) (token-ne-user _ is_new s.user_id)) [
            | inl same ↦ same
            | inr gone ↦ absurd (token-ne-user t is_t s.user_id gone.0)
          ])

    logout-Dead :
        (t : String) (w : World) → IsToken t → Dead token s w → Dead token s (logout t w).1
    unfolding logout
    logout-Dead t w is_t d =
        Dead-kept token s w _ d
          (elim (Bool-cases (token_key t == token_key token)) [
            | inl e ↦ inr (rw e)
            | inr e ↦ inl (rw e)
          ])
          (rw (eq_ne _ _ (token-ne-user t is_t s.user_id)))

    issue-Dead :
        (user : User) (w : World)
        → IsToken (env.random (suc w.step))
        → env.random (suc w.step) ≢ token
        → Dead token s w
        → Dead token s (issue_tokens user w).1
    issue-Dead user w is_new fresh d =
        Dead-kept token s w _ d (inl (issue_tokens-redis user w _ (new-ne-token _ fresh)))
          (issue_tokens-redis user w _ (token-ne-user _ is_new s.user_id))

    revoke_all-Dead : (w : World) → Dead token s w → Dead token s (revoke_all_sessions w).1
    revoke_all-Dead w d = rw (revoke_all-world w) (
        Dead-kept token s w _ d
          (inl (incr-other _ _ w (λ e. token-ne-global token is_token (sym e))))
          (incr-other _ _ w (λ e. user-ne-global s.user_id (sym e))))

    revoke_user-Dead :
        (u : String) (w : World) → Dead token s w → Dead token s (revoke_user_sessions u w).1
    revoke_user-Dead u w d =
        rw (revoke_user-world u w)
          (elim (Bool-cases (user_epoch_key u == user_epoch_key s.user_id)) [
            | inl e ↦
                let same = (eq_iff _ _).0 e in
                Dead-counted token s w _ d
                  (incr-other _ _ w (λ k. token-ne-user token is_token u (sym k)))
                  (rw same (incr-HoldsCount _ w d.epoch d.now))
            | inr e ↦
                Dead-kept token s w _ d
                  (inl (incr-other _ _ w (λ k. token-ne-user token is_token u (sym k))))
                  (incr-other _ _ w (λ k. false≢true (sym e ∙ (eq_iff _ _).1 k)))
          ])

    Step-Dead : (w w' : World) → Fresh token w → Step w w' → Dead token s w → Dead token s w'
    Step-Dead w w' fresh (refreshes t is_t e) d =
        let (is_new, ne) = fresh (suc w.step) (omega arith) in
        rw e (refresh-Dead t w is_t is_new ne d)
    Step-Dead w w' fresh (logs_out t is_t e) d = rw e (logout-Dead t w is_t d)
    Step-Dead w w' fresh (signs_in user e) d =
        let (is_new, ne) = fresh (suc w.step) (omega arith) in rw e (issue-Dead user w is_new ne d)
    Step-Dead w w' fresh (revokes_user u e) d = rw e (revoke_user-Dead u w d)
    Step-Dead w w' fresh (revokes_all e) d = rw e (revoke_all-Dead w d)
    Step-Dead w w' fresh (elsewhere later tokens epochs) d =
        Dead-kept token s w w' d (inl (tokens token)) (epochs s.user_id)

  issue-step : (user : User) (w : World) → w.step ≤ (issue_tokens user w).1.step
  unfolding issue_tokens
  issue-step user w = omega arith

  logout-step : (t : String) (w : World) → (logout t w).1.step ≡ w.step
  unfolding logout
  logout-step t w = refl

  Step-later : (w w' : World) → Step w w' → w.step ≤ w'.step
  Step-later w w' (refreshes t is_t e) = rw e (refresh-step t w)
  Step-later w w' (logs_out t is_t e) = rw e (omega (arith, logout-step t w))
  Step-later w w' (signs_in user e) = rw e (issue-step user w)
  Step-later w w' (revokes_user u e) =
      rw (e, revoke_user-world u w) (omega (arith, incr-step (user_epoch_key u) w))
  Step-later w w' (revokes_all e) =
      rw (e, revoke_all-world w) (omega (arith, incr-step global_epoch_key w))
  Step-later w w' (elsewhere later tokens epochs) = later

  Reach-later : {w w' : World} → Reach w w' → w.step ≤ w'.step
  Reach-later here = omega arith
  Reach-later (next {u} {v} r st) = omega (arith, Reach-later r, Step-later u v st)

  Reach-Dead :
      (token : String) (s : Session)
      → IsToken token
      → {w w' : World} → Fresh token w
      → Reach w w'
      → Dead token s w
      → Dead token s w'
  Reach-Dead token s is_token fresh here d = d
  Reach-Dead token s is_token {w} fresh (next {u} {v} r st) d =
      Step-Dead token s is_token u v (λ n later. fresh n (omega (arith, Reach-later r))) st
        (Reach-Dead token s is_token fresh r d)

  -- A token holds a session of a user, issued at an epoch not later than the user's. Once the
  -- user's sessions are revoked, no refresh with that token succeeds, after any sequence of
  -- refreshes, logouts, sign-ins, revocations and other work. Assumed: no client sends a text
  -- spelled like an epoch's key as its token, and new random tokens are others than this one.
  pub revoked_forever :
      (token : String) (s : Session) (w : World) (e : Entry) (epoch issued : ℕ)
      → IsToken token
      → Fresh token w
      → w.redis (token_key token) ≡ some e
      → e.value ≡ session s
      → HoldsCount (w.redis (user_epoch_key s.user_id)) epoch
      → s.user_epoch ≡ some issued
      → issued ≤ epoch
      → {w' : World} → Reach (revoke_user_sessions s.user_id w).1 w'
      → (tokens : Tokens) → (refresh token w').0 ≢ ok tokens
  revoked_forever token s w e epoch issued is_token fresh held value now issued_at order {w'} r =
      let moved = revoke_user-world s.user_id w in
      let start : Dead token s (revoke_user_sessions s.user_id w).1 = rw moved (record {
        entry = inr (
          e,
          incr-other _ _ w (λ k. token-ne-user token is_token s.user_id (sym k)) ∙ held,
          value,
        );
        epoch = suc epoch;
        now = inr (incr-HoldsCount _ w epoch now);
        issued = issued;
        issued_at = issued_at;
        older = omega arith;
      }) in
      Dead-refused token s w' (
        Reach-Dead token s is_token
          (λ n later. fresh n (
            omega
              (arith, ap (λ (v : World). v.step) moved, incr-step (user_epoch_key s.user_id) w)))
          r start)
