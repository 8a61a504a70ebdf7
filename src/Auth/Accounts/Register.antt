-- ===== src/Auth/Accounts/Register.antt =====
-- What `register` does, on both branches.
use nadbooks_backend.Prelude.{
  ℕ, suc, Bool, ◌≡◌, refl, true, false, some, none, arith, is_some, find_first,
}
use nadbooks_backend.Schema.{User, Wallet}
use nadbooks_backend.Effects.{World, Env, ok, err, unique_violation}
use nadbooks_backend.Users.Store.{create_user, collides, joined, empty_wallet}
use nadbooks_backend.Auth.Crypto.{Crypto, payload_of}
use nadbooks_backend.Auth.Sessions.{Tokens}
use nadbooks_backend.Auth.Accounts.{CreateUser, register, registered, response, welcome}

abbrev pub after : ℕ → World → World
after n w = record w { step = n }

module _ ⦃env : Env⦄ ⦃crypto : Crypto⦄ (dto : CreateUser) (w : World) where
  -- The row, made of the password's hash and of the next random id.
  abbrev pub new_row : User
  new_row = registered dto (crypto.hash w.step dto.password) (env.random (suc w.step))

  abbrev pub new_wallet : Wallet
  new_wallet = empty_wallet (env.random (suc (suc w.step))) (env.random (suc w.step))

  abbrev pub is_taken : Bool
  is_taken = is_some (find_first (collides new_row) w.db.users)

  -- The world once the row is there.
  abbrev pub with_row : World
  with_row = joined new_row new_wallet (after (suc (suc (suc w.step))) w)

  pub register_free : is_taken ≡ false → register dto w ≡ welcome new_row with_row
  unfolding register create_user
  register_free free = ground (arith, free)

  pub register_taken :
      is_taken ≡ true → register dto w ≡ (err unique_violation, after (suc (suc (suc w.step))) w)
  unfolding register create_user
  register_taken taken = ground (arith, taken)

module _ ⦃env : Env⦄ ⦃crypto : Crypto⦄ (user : User) (w : World) where
  -- The tokens that are issued two observations later.
  abbrev pub welcome_tokens : Tokens
  welcome_tokens = record {
    access_token = crypto.sign (suc (suc w.step)) (payload_of user);
    refresh_token = env.random (suc (suc (suc w.step)));
  }

  pub welcome_run :
      (welcome user w).0
      ≡ ok (record { tokens = welcome_tokens; user = response user (some false) none })
  unfolding welcome
  welcome_run = refl

  pub welcome-db : (welcome user w).1.db ≡ w.db
  unfolding welcome
  welcome-db = refl

  pub welcome-outbox : (welcome user w).1.outbox ≡ w.outbox
  unfolding welcome
  welcome-outbox = refl
