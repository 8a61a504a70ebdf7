-- ===== src/Users/Store.antt =====
-- The queries on the user table that several services make.
use nadbooks_backend.Prelude.{
  String, Bool, false, ◌==◌, ◌&&◌, ◌||◌, not, Option, none, some, ◌∷◌, find_first, update_first,
  is_text, is_some,
}
use nadbooks_backend.Prelude.Int.{pos}
use nadbooks_backend.Schema.{Db, User, Wallet}
use nadbooks_backend.Effects.{
  World, Env, same_text, Action, record_not_found, unique_violation, pure, gets, or_throw, ask,
  throw_if, ◌>>=◌, ◌>>◌, modify, read, write, Client,
}

abbrev pub has_id : String → User → Bool
has_id id user = user.id == id

abbrev pub has_email : ⦃env : Env⦄ → String → User → Bool
has_email email user = same_text user.email email

-- `findUnique({ where: { id } })`
unfoldable pub find_user : String → Db → Option User
find_user id d = find_first (has_id id) d.users

-- `findFirst({ where: { email } })`
unfoldable pub find_by_email : ⦃env : Env⦄ → String → Db → Option User
find_by_email email d = find_first (has_email email) d.users

-- `findFirst({ where: { email, id: { not: userId } } })`
unfoldable pub find_other_by_email : ⦃env : Env⦄ → String → String → Db → Option User
find_other_by_email email id d =
    find_first (λ user. has_email email user && not (has_id id user)) d.users

-- `findFirst({ where: { googleId, id: { not: userId } } })`
unfoldable pub find_other_by_google_id : String → String → Db → Option User
find_other_by_google_id google_id id d =
    find_first (λ user. is_text user.google_id google_id && not (has_id id user)) d.users

unfoldable pub set_user : String → (User → User) → Db → Db
set_user id f d = record d { users = update_first (has_id id) f d.users }

-- `client.user.update({ where: { id }, data })`
unfoldable pub update_user : String → (User → User) → Client → Action User
update_user id f c = do
  user ← or_throw (← gets (λ w. find_user id (read c w))) record_not_found
  modify (λ w. write c (set_user id f (read c w)) w)
  pure (f user)

-- `user.update({ where: { email }, data })`
unfoldable pub update_by_email : ⦃env : Env⦄ → String → (User → User) → Action User
update_by_email email f = do
  user ← or_throw (← gets (λ w. find_by_email email w.db)) record_not_found
  modify
      (λ w. record w { db = record w.db { users = update_first (has_email email) f w.db.users } })
  pure (f user)

abbrev pub clash : Option String → Option String → Bool
clash none _ = false
clash (some google_id) other = is_text other google_id

-- The two rows share the id, or another column that is unique.
abbrev pub collides : ⦃env : Env⦄ → User → User → Bool
collides new user =
    has_id new.id user
    || has_email new.email user
    || same_text user.username new.username
    || clash new.google_id user.google_id

abbrev pub empty_wallet : String → String → Wallet
empty_wallet id user_id = record { id = id; user_id = user_id; balance = pos 0 }

abbrev pub add_user : User → Wallet → Db → Db
add_user user wallet d = record d { users = user ∷ d.users; wallets = wallet ∷ d.wallets }

-- The world after a row was added.
abbrev pub joined : User → Wallet → World → World
joined user wallet w = record w { db = add_user user wallet w.db }

-- `user.create({ data: { ..., wallet: { create: { balance: 0 } } } })`
unfoldable pub create_user : ⦃env : Env⦄ → (String → User) → Action User
create_user ⦃env⦄ row = do
  id ← ask env.random
  wallet_id ← ask env.random
  taken ← gets (λ w. is_some (find_first (collides (row id)) w.db.users))
  throw_if taken unique_violation
  modify (joined (row id) (empty_wallet wallet_id id))
  pure (row id)
