-- ===== src/Payments/Withdrawal/PinLock.antt =====
-- The lock of the transaction PIN.
use mathlib.Core.Path.{subst, ◌∙◌}
use nadbooks_backend.Prelude.{
  ℕ, suc, ◌-◌, ◌≤◌, ◌<◌, String, ◌≡◌, refl, true, false, none, some, arith, eq_self, ◌⊎◌, inl, inr,
  Option-cases, leb, if◌then◌else◌,
}
use nadbooks_backend.Schema.{User}
use nadbooks_backend.Effects.{World, Env, Entry, bad_request, ok, err, count}
use nadbooks_backend.Redis.{live, lookup, value_at, deadline_after}
use nadbooks_backend.Users.Store.{find_user}
use nadbooks_backend.Auth.Crypto.{Crypto}
use nadbooks_backend.Payments.Withdrawal.Pin.{
  pin_fail_key, pin_fail_limit, pin_fail_ttl, fails, verify_user_pin, locked_out, wrong_pin_text,
}

module _ ⦃env : Env⦄ ⦃crypto : Crypto⦄ where
  -- With three failures on record no PIN is tried, the right one included, and nothing changes.
  pub locked :
      (user_id pin : String) (w : World)
      → pin_fail_limit ≤ fails (value_at (pin_fail_key user_id) w)
      → verify_user_pin user_id pin w ≡ (err locked_out, w)
  unfolding verify_user_pin
  locked user_id pin w full = ground arith

  -- A PIN passes only when fewer than three failures are on record and it verifies against the
  -- user's hash. It changes nothing, so the failures stay on record.
  pub verify_passes :
      (user_id pin : String) (w w' : World)
      → verify_user_pin user_id pin w ≡ (ok tt, w')
      → (w' ≡ w)
        × (fails (value_at (pin_fail_key user_id) w) < pin_fail_limit)
        × ((user : User) × (hash : String) × (find_user user_id w.db ≡ some user)
            × (user.pin_hash ≡ some hash)
            × (crypto.verify hash pin ≡ true))
  unfolding verify_user_pin
  verify_passes user_id pin w w' h = elim (Option-cases (find_user user_id w.db)) [
    | inl missing ↦ absurd (ground arith)
    | inr (user, found) ↦ elim (Option-cases user.pin_hash) [
      | inl missing ↦ absurd (ground arith)
      | inr (hash, has_pin) ↦
          (ground arith, ground arith, (user, hash, found, has_pin, ground arith))
    ]
  ]

-- `n` failures are on record: the counter is there, or it is not and `n` is 0.
abbrev pub HasFails : ⦃env : Env⦄ → String → ℕ → World → Type 0
HasFails user_id n w =
    ((lookup (pin_fail_key user_id) w ≡ none) × (n ≡ 0))
    ⊎ ((e : Entry) × (lookup (pin_fail_key user_id) w ≡ some e) × (e.value ≡ count n))

HasFails-count :
    ⦃env : Env⦄ (user_id : String) (n : ℕ) (w : World)
    → HasFails user_id n w
    → n ≤ fails (value_at (pin_fail_key user_id) w)
HasFails-count user_id n w h = ground arith

live_in_time :
    (now : ℕ) (e : Entry) (t : ℕ) → e.deadline ≡ some t → now < t → live now (some e) ≡ some e
live_in_time now e t h early = ground arith

-- The user's PIN is there, and the given one is not it.
abbrev pub IsWrong : ⦃crypto : Crypto⦄ → String → String → World → Type 0
IsWrong ⦃crypto⦄ user_id pin w =
    (user : User) × (hash : String) × (find_user user_id w.db ≡ some user)
    × (user.pin_hash ≡ some hash)
    × (crypto.verify hash pin ≡ false)

module _ ⦃env : Env⦄ ⦃crypto : Crypto⦄ where
  -- A wrong PIN, with fewer than three failures on record, adds one failure, which lasts for 15
  -- minutes from now, and leaves the database as it was; the answer says how many attempts are
  -- left, and the third failure is answered by the lock.
  pub wrong_pin :
      (user_id pin : String) (n : ℕ) (w : World)
      → HasFails user_id n w
      → n < pin_fail_limit
      → IsWrong user_id pin w
      → let (r, w') = verify_user_pin user_id pin w in
        (w'.redis (pin_fail_key user_id)
          ≡ some (record {
            value = count (suc n);
            deadline = some (deadline_after (env.clock w.step) pin_fail_ttl);
          }))
        × (w'.step ≡ w.step)
        × (w'.db ≡ w.db)
        × (r
            ≡ err (
                if leb pin_fail_limit (suc n)
                then locked_out
                else bad_request (wrong_pin_text (2 - n))))
  unfolding verify_user_pin
  wrong_pin user_id pin n w (inl (none_yet, zero_fails)) few (user, hash, found, has_pin, wrong) =
      ground (arith, eq_self (pin_fail_key user_id))
  wrong_pin user_id pin n w (inr (e, there, value)) few (user, hash, found, has_pin, wrong) =
      ground (arith, eq_self (pin_fail_key user_id))

  -- `w` comes within 15 minutes after an attempt that ended in `v`, with nothing done to the
  -- user's failures between.
  pub record Soon (user_id : String) (v w : World) : Type 0 where
    pub kept : w.redis (pin_fail_key user_id) ≡ v.redis (pin_fail_key user_id)
    pub in_time : env.clock w.step < deadline_after (env.clock v.step) pin_fail_ttl

  -- The failure that an attempt recorded is still on record soon after.
  HasFails-Soon :
      (user_id pin : String) (n : ℕ) (w w' : World)
      → HasFails user_id n w
      → n < pin_fail_limit
      → IsWrong user_id pin w
      → Soon user_id (verify_user_pin user_id pin w).1 w'
      → HasFails user_id (suc n) w'
  HasFails-Soon user_id pin n w w' has few wrong soon =
      let (stored, same_step, same_db, answer) = wrong_pin user_id pin n w has few wrong in
      let entry : Entry = record {
        value = count (suc n);
        deadline = some (deadline_after (env.clock w.step) pin_fail_ttl);
      } in
      let there : w'.redis (pin_fail_key user_id) ≡ some entry = soon.kept ∙ stored in
      let in_time : env.clock w'.step < deadline_after (env.clock w.step) pin_fail_ttl =
        subst (λ (k : ℕ). env.clock w'.step < deadline_after (env.clock k) pin_fail_ttl) same_step
          soon.in_time in
      inr (entry, rw there (live_in_time _ entry _ refl in_time), refl)

  -- With no failure on record, three wrong PINs in a row, each within 15 minutes of the one
  -- before, lock the user out: within 15 minutes of the last one every PIN is refused, the right
  -- one too, and nothing changes. Nothing else touches the user's failures in between.
  pub lock_after_three :
      (user_id p1 p2 p3 pin : String) (w0 w1 w2 w3 : World)
      → HasFails user_id 0 w0
      → IsWrong user_id p1 w0
      → Soon user_id (verify_user_pin user_id p1 w0).1 w1
      → IsWrong user_id p2 w1
      → Soon user_id (verify_user_pin user_id p2 w1).1 w2
      → IsWrong user_id p3 w2
      → Soon user_id (verify_user_pin user_id p3 w2).1 w3
      → verify_user_pin user_id pin w3 ≡ (err locked_out, w3)
  lock_after_three user_id p1 p2 p3 pin w0 w1 w2 w3 h0 x1 s1 x2 s2 x3 s3 =
      let h1 = HasFails-Soon user_id p1 0 w0 w1 h0 (omega arith) x1 s1 in
      let h2 = HasFails-Soon user_id p2 1 w1 w2 h1 (omega arith) x2 s2 in
      let h3 = HasFails-Soon user_id p3 2 w2 w3 h2 (omega arith) x3 s3 in
      locked user_id pin w3 (HasFails-count user_id 3 w3 h3)
