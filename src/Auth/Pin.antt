-- ===== src/Auth/Pin.antt =====
-- `setPin` and `changePin` of src/auth/auth.service.ts.
pub mod RoundTrip
use nadbooks_backend.Prelude.{ℕ, String, Bool, not, Option, none, some, is_some}
use nadbooks_backend.Schema.{User}
use nadbooks_backend.Effects.{
  World, Env, Action, main, bad_request, not_found, conflict, pure, throw, gets, or_throw, ask,
  ◌>>=◌, ◌>>◌, throw_if,
}
use nadbooks_backend.Users.Store.{find_user, update_user}
use nadbooks_backend.Auth.Crypto.{Crypto}

abbrev pub with_pin : String → ℕ → User → User
with_pin hash now user = record user { pin_hash = some hash; pin_changed_at = some now }

module _ ⦃env : Env⦄ ⦃crypto : Crypto⦄ where
  unfoldable pub store_pin : String → String → Action User
  unfolding update_user
  store_pin user_id pin = do
    hash ← ask (λ n. crypto.hash n pin)
    now ← ask env.clock
    update_user user_id (with_pin hash now) main

  unfoldable pub set_pin : String → String → Action String
  unfolding store_pin
  set_pin user_id pin = do
    user ← or_throw (← gets (λ w. find_user user_id w.db)) (not_found "User not found")
    throw_if (is_some user.pin_hash) (conflict "PIN already set. Use /pin/change to update it.")
    store_pin user_id pin
    pure "Transaction PIN set successfully"

  unfoldable pub change_pin : String → String → String → Action String
  unfolding store_pin
  change_pin user_id old_pin new_pin = do
    user ← or_throw (← gets (λ w. find_user user_id w.db)) (not_found "User not found")
    hash ← or_throw user.pin_hash (bad_request "PIN not set. Use POST /pin/set to create one.")
    throw_if (not (crypto.verify hash old_pin)) (bad_request "Invalid current PIN")
    store_pin user_id new_pin
    pure "Transaction PIN changed successfully"
