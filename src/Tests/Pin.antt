-- ===== src/Tests/Pin.antt =====
-- The theorems on the PIN at one user.
use nadbooks_backend.Prelude.{
  eq_self, ◌∷◌, [], ℕ, String, ℕ, String, ◌≡◌, refl, some, none, inl, arith, false, true,
  find_first,
}
use nadbooks_backend.Schema.{User}
use nadbooks_backend.Effects.{World, ok, err}
use nadbooks_backend.Users.Store.{find_user}
use nadbooks_backend.Payments.Withdrawal.Pin.{pin_fail_key, verify_user_pin, locked_out}
use nadbooks_backend.Payments.Withdrawal.PinLock.{lock_after_three, HasFails, IsWrong, Soon}
use nadbooks_backend.Auth.Pin.{set_pin, change_pin}
use nadbooks_backend.Auth.Pin.RoundTrip.{set_pin-verify_user_pin, change_pin-verify_user_pin}
use nadbooks_backend.Tests.Samples.{ada, sample_env, sample_crypto, sample_world, sample_db}

none_yet : HasFails "u1" 0 sample_world
none_yet = inl (refl, refl)

wrong : (pin : String) → sample_crypto.verify "1234" pin ≡ false → IsWrong "u1" pin sample_world
unfolding find_user find_first
wrong pin h = (ada, "1234", refl, refl, h)

-- Three attempts, one right after the other.
abbrev attempt : String → World → World
attempt pin w = (verify_user_pin "u1" pin w).1

abbrev once : World
once = attempt "0000" sample_world

abbrev twice : World
twice = attempt "1111" once

abbrev thrice : World
thrice = attempt "2222" twice

IsWrong-once : IsWrong "u1" "1111" once
unfolding verify_user_pin find_user find_first
IsWrong-once = (ada, "1234", refl, refl, refl)

IsWrong-twice : IsWrong "u1" "2222" twice
unfolding verify_user_pin find_user find_first pin_fail_key
IsWrong-twice = (ada, "1234", refl, refl, refl)

Soon-once : Soon "u1" once once
unfolding verify_user_pin find_user find_first
Soon-once = record { kept = refl; in_time = omega arith }

Soon-twice : Soon "u1" twice twice
unfolding verify_user_pin find_user find_first
Soon-twice = record { kept = refl; in_time = omega arith }

Soon-thrice : Soon "u1" thrice thrice
unfolding verify_user_pin find_user find_first
Soon-thrice = record { kept = refl; in_time = omega arith }

lock_after_three_example : verify_user_pin "u1" "1234" thrice ≡ (err locked_out, thrice)
lock_after_three_example =
    lock_after_three "u1" "0000" "1111" "2222" "1234" sample_world once twice thrice none_yet
      (wrong "0000" refl) Soon-once IsWrong-once Soon-twice IsWrong-twice Soon-thrice

-- The sample user without a PIN.
abbrev pinless : World
pinless = record sample_world {
  db = record sample_db { users = (record ada { pin_hash = none }) ∷ [] };
}

abbrev with_new : World
with_new = (set_pin "u1" "7777" pinless).1

set_done : set_pin "u1" "7777" pinless ≡ (ok "Transaction PIN set successfully", with_new)
unfolding set_pin find_user find_first
set_done = refl

law : (n : ℕ) (pin : String) → sample_crypto.verify (sample_crypto.hash n pin) pin ≡ true
law n pin = eq_self pin

set_pin-verify_user_pin_example : verify_user_pin "u1" "7777" with_new ≡ (ok tt, with_new)
unfolding set_pin find_user find_first
set_pin-verify_user_pin_example =
    set_pin-verify_user_pin "u1" "7777" "Transaction PIN set successfully" pinless with_new law
      set_done (omega arith)

abbrev with_changed : World
with_changed = (change_pin "u1" "1234" "7777" sample_world).1

change_done :
    change_pin "u1" "1234" "7777" sample_world
    ≡ (ok "Transaction PIN changed successfully", with_changed)
unfolding change_pin find_user find_first
change_done = refl

change_pin-verify_user_pin_example :
    ((user : User) × (hash : String) × (find_user "u1" sample_db ≡ some user)
      × (user.pin_hash ≡ some hash)
      × (sample_crypto.verify hash "1234" ≡ true))
    × (verify_user_pin "u1" "7777" with_changed ≡ (ok tt, with_changed))
unfolding change_pin find_user find_first
change_pin-verify_user_pin_example =
    change_pin-verify_user_pin "u1" "1234" "7777" "Transaction PIN changed successfully"
      sample_world with_changed law change_done (omega arith)
