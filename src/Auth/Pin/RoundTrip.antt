-- ===== src/Auth/Pin/RoundTrip.antt =====
-- A PIN that was set or changed is the one that a withdrawal asks for.
use mathlib.Core.Path.{subst, sym}
use nadbooks_backend.Prelude.{
  ℕ, suc, ◌<◌, String, ◌≡◌, true, some, arith, inl, inr, find_first-update_self, find_first-fits,
  Option-cases,
}
use nadbooks_backend.Schema.{User, Db}
use nadbooks_backend.Effects.{World, Env, ok}
use nadbooks_backend.Redis.{value_at}
use nadbooks_backend.Users.Store.{find_user, set_user, has_id}
use nadbooks_backend.Auth.Crypto.{Crypto}
use nadbooks_backend.Auth.Pin.{with_pin, store_pin, set_pin, change_pin}
use nadbooks_backend.Payments.Withdrawal.Pin.{verify_user_pin, pin_fail_key, pin_fail_limit, fails}

find_user-set :
    (id hash : String) (now : ℕ) (d : Db) (user : User)
    → find_user id d ≡ some user
    → find_user id (set_user id (with_pin hash now) d) ≡ some (with_pin hash now user)
unfolding find_user set_user
find_user-set id hash now d user found =
    find_first-update_self (has_id id) (with_pin hash now) d.users user found
      (find_first-fits (has_id id) d.users user found)

module _ ⦃env : Env⦄ ⦃crypto : Crypto⦄ where
  -- The world in which the PIN has been stored.
  abbrev pub stored : String → String → World → World
  stored user_id pin w = record w {
    db = set_user user_id (with_pin (crypto.hash w.step pin) (env.clock (suc w.step))) w.db;
    step = suc (suc w.step);
  }

  pub store_pin_run :
      (user_id pin : String) (w : World) (user : User)
      → find_user user_id w.db ≡ some user
      → store_pin user_id pin w ≡ (
        ok (with_pin (crypto.hash w.step pin) (env.clock (suc w.step)) user),
        stored user_id pin w,
      )
  unfolding store_pin
  store_pin_run user_id pin w user found = ground arith

  set_pin_ok :
      (user_id pin message : String) (w w' : World)
      → set_pin user_id pin w ≡ (ok message, w')
      → (user : User) × (find_user user_id w.db ≡ some user) × (w' ≡ stored user_id pin w)
  unfolding set_pin store_pin
  set_pin_ok user_id pin message w w' done = elim (Option-cases (find_user user_id w.db)) [
    | inl missing ↦ absurd (ground arith)
    | inr (user, found) ↦ (user, found, ground arith)
  ]

  change_pin_ok :
      (user_id old_pin new_pin message : String) (w w' : World)
      → change_pin user_id old_pin new_pin w ≡ (ok message, w')
      → (user : User) × (hash : String) × (find_user user_id w.db ≡ some user)
        × (user.pin_hash ≡ some hash)
        × (crypto.verify hash old_pin ≡ true)
        × (w' ≡ stored user_id new_pin w)
  unfolding change_pin store_pin
  change_pin_ok user_id old_pin new_pin message w w' done =
      elim (Option-cases (find_user user_id w.db)) [
        | inl missing ↦ absurd (ground arith)
        | inr (user, found) ↦ elim (Option-cases user.pin_hash) [
          | inl missing ↦ absurd (ground arith)
          | inr (hash, has_pin) ↦ (user, hash, found, has_pin, ground arith, ground arith)
        ]
      ]

  pub verify_stored :
      (user_id pin : String) (w : World) (user : User)
      → find_user user_id w.db ≡ some user
      → crypto.verify (crypto.hash w.step pin) pin ≡ true
      → fails (value_at (pin_fail_key user_id) (stored user_id pin w)) < pin_fail_limit
      → verify_user_pin user_id pin (stored user_id pin w) ≡ (ok tt, stored user_id pin w)
  unfolding verify_user_pin
  verify_stored user_id pin w user found right few =
      let hash = crypto.hash w.step pin in
      let now = env.clock (suc w.step) in
      let there = find_user-set user_id hash now w.db user found in ground (arith, there)

  -- After a PIN was set, the withdrawal's check accepts it, as long as fewer than three failures
  -- are on record. Assumed: argon2 verifies a text against each hash it made of it.
  pub set_pin-verify_user_pin :
      (user_id pin message : String) (w w' : World)
      → ((n : ℕ) (text : String) → crypto.verify (crypto.hash n text) text ≡ true)
      → set_pin user_id pin w ≡ (ok message, w')
      → fails (value_at (pin_fail_key user_id) w') < pin_fail_limit
      → verify_user_pin user_id pin w' ≡ (ok tt, w')
  set_pin-verify_user_pin user_id pin message w w' law done few =
      let (user, found, same) = set_pin_ok user_id pin message w w' done in
      subst (λ (v : World). verify_user_pin user_id pin v ≡ (ok tt, v)) (sym same)
        (verify_stored user_id pin w user found (law w.step pin) (
          subst (λ (v : World). fails (value_at (pin_fail_key user_id) v) < pin_fail_limit) same
            few))

  -- A PIN is changed only by who knows the old one, and afterwards the withdrawal's check accepts
  -- the new one, as long as fewer than three failures are on record. Assumed: argon2 verifies a
  -- text against each hash it made of it.
  pub change_pin-verify_user_pin :
      (user_id old_pin new_pin message : String) (w w' : World)
      → ((n : ℕ) (text : String) → crypto.verify (crypto.hash n text) text ≡ true)
      → change_pin user_id old_pin new_pin w ≡ (ok message, w')
      → fails (value_at (pin_fail_key user_id) w') < pin_fail_limit
      → ((user : User) × (hash : String) × (find_user user_id w.db ≡ some user)
          × (user.pin_hash ≡ some hash)
          × (crypto.verify hash old_pin ≡ true))
        × (verify_user_pin user_id new_pin w' ≡ (ok tt, w'))
  change_pin-verify_user_pin user_id old_pin new_pin message w w' law done few =
      let (user, hash, found, has_pin, knows, same) =
        change_pin_ok user_id old_pin new_pin message w w' done in
      (
        (user, hash, found, has_pin, knows),
        subst (λ (v : World). verify_user_pin user_id new_pin v ≡ (ok tt, v)) (sym same)
            (verify_stored user_id new_pin w user found (law w.step new_pin) (
              subst (λ (v : World). fails (value_at (pin_fail_key user_id) v) < pin_fail_limit) same
                few)),
      )
