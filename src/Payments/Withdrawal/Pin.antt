-- ===== src/Payments/Withdrawal/Pin.antt =====
-- `verifyUserPin` of src/payments/withdrawal/withdrawal.service.ts, and its lock.
use Prim.Native.String
use nadbooks_backend.Prelude.{ℕ, String, Option, none, some, leb, eqb, ◌-◌, if◌then◌else◌}
use nadbooks_backend.Effects.{
  Env, Value, Error, count, Action, Void, bad_request, pure, throw, gets, ◌>>=◌, ◌>>◌, throw_if,
}
use nadbooks_backend.Redis.{get, incr, expire}
use nadbooks_backend.Users.Store.{find_user}
use nadbooks_backend.Auth.Crypto.{Crypto}

abbrev pub pin_fail_limit : ℕ
pin_fail_limit = 3

-- In seconds: 15 minutes.
abbrev pub pin_fail_ttl : ℕ
pin_fail_ttl = 900

unfoldable pub pin_fail_key : String → String
pin_fail_key user_id = String.◌++◌ "withdrawal:pin:fail:" user_id

-- `parseInt(await redis.get(failKey))`; only INCR writes the key.
abbrev pub fails : Option Value → ℕ
fails (some (count n)) = n
fails _ = 0

-- `Invalid transaction PIN. ${remaining} attempts remaining.`, where one or two are left.
abbrev pub wrong_pin_text : ℕ → String
wrong_pin_text left =
    if eqb left 2
    then "Invalid transaction PIN. 2 attempts remaining."
    else "Invalid transaction PIN. 1 attempts remaining."

module _ ⦃env : Env⦄ ⦃crypto_lib : Crypto⦄ where
  abbrev pub locked_out : Error
  locked_out = bad_request "Too many failed attempts. Try again in 15 minutes."

  -- After a wrong PIN: count it, restart the time to live, and say how many are left.
  unfoldable pub count_failure : String → Action Void
  unfolding get incr expire
  count_failure user_id = do
    v ← get (pin_fail_key user_id)
    incr (pin_fail_key user_id)
    expire (pin_fail_key user_id) pin_fail_ttl
    throw (
        if leb (pin_fail_limit - fails v) 1
        then locked_out
        else bad_request (wrong_pin_text (pin_fail_limit - fails v - 1)))

  unfoldable pub check_pin : String → String → String → Action Void
  unfolding count_failure
  check_pin user_id pin hash = if crypto_lib.verify hash pin then pure tt else count_failure user_id

  -- A hash is never the empty text, so `!user?.pinHash` asks whether there is one.
  unfoldable pub verify_user_pin : String → String → Action Void
  unfolding get check_pin
  verify_user_pin user_id pin = do
    v ← get (pin_fail_key user_id)
    throw_if (leb pin_fail_limit (fails v)) locked_out
    user ← gets (λ w. find_user user_id w.db)
    elim user [
      | none ↦ throw (bad_request "Transaction PIN not set. Use POST /pin/set to create one.")
      | some u ↦ elim u.pin_hash [
        | none ↦ throw (bad_request "Transaction PIN not set. Use POST /pin/set to create one.")
        | some hash ↦ check_pin user_id pin hash
      ]
    ]
