-- ===== src/Wallet.antt =====
-- src/wallet/wallet.service.ts
pub mod Balance
pub mod Ledger
use nadbooks_backend.Prelude.{
  ℕ, String, Bool, ◌==◌, Option, none, some, ◌∷◌, find_first, update_first, text_lt, List,
}
use nadbooks_backend.Prelude.Int.{pos, ◌+ℤ◌, ◌-ℤ◌, leb_ℤ}
use nadbooks_backend.Schema.{Db, Decimal, Wallet}
use nadbooks_backend.Effects.{
  World, Env, Action, Void, Client, bad_request, not_found, record_not_found, unique_violation,
  invalid_argument, pure, throw, gets, or_throw, ask, ◌>>=◌, ◌>>◌, modify, throw_if, read, write,
}

abbrev pub has_id : String → Wallet → Bool
has_id id wallet = wallet.id == id

abbrev pub has_user : String → Wallet → Bool
has_user id wallet = wallet.user_id == id

unfoldable pub find_wallet : String → Db → Option Wallet
find_wallet id d = find_first (has_id id) d.wallets

unfoldable pub find_user_wallet : String → Db → Option Wallet
find_user_wallet id d = find_first (has_user id) d.wallets

-- `balance: { increment: amount }`
abbrev pub add_balance : Decimal → Wallet → Wallet
add_balance amount wallet = record wallet { balance = wallet.balance +ℤ amount }

-- `balance: { decrement: amount }`
abbrev pub take_balance : Decimal → Wallet → Wallet
take_balance amount wallet = record wallet { balance = wallet.balance -ℤ amount }

unfoldable pub set_wallet : String → (Wallet → Wallet) → Db → Db
set_wallet id f d = record d { wallets = update_first (has_id id) f d.wallets }

-- `client.wallet.update({ where: { id }, data })`
unfoldable pub update_wallet : String → (Wallet → Wallet) → Client → Action Wallet
update_wallet id f c = do
  wallet ← or_throw (← gets (λ w. find_wallet id (read c w))) record_not_found
  modify (λ w. write c (set_wallet id f (read c w)) w)
  pure (f wallet)

module _ ⦃env : Env⦄ where
  unfoldable pub create_wallet : String → Action Wallet
  create_wallet user_id = do
    id ← ask env.random
    taken ← gets (λ w. find_user_wallet user_id w.db)
    elim taken [
      | some wallet ↦ throw unique_violation
      | none ↦ do
        let wallet : Wallet = record { id = id; user_id = user_id; balance = pos 0 }
        modify (λ w. record w { db = record w.db { wallets = wallet ∷ w.db.wallets } })
        pure wallet
    ]

  unfoldable pub get_wallet : String → Client → Action Wallet
  get_wallet user_id c = do
    or_throw (← gets (λ w. find_user_wallet user_id (read c w))) (bad_request "Wallet not found")

  unfoldable pub get_wallet_by_id : String → Client → Action Wallet
  get_wallet_by_id wallet_id c = do
    or_throw (← gets (λ w. find_wallet wallet_id (read c w))) (not_found "Wallet not found")

  unfoldable pub credit : String → Decimal → Client → Action Wallet
  unfolding update_wallet
  credit wallet_id amount c = do
    throw_if (leb_ℤ amount (pos 0)) (bad_request "Amount must be greater than zero")
    update_wallet wallet_id (add_balance amount) c

  -- `wallet.balance < amount` compares two objects of decimal.js, so it compares their `valueOf`,
  -- which are texts.
  unfoldable pub debit : String → Decimal → Client → Action Wallet
  unfolding update_wallet get_wallet_by_id
  debit wallet_id amount c = do
    throw_if (leb_ℤ amount (pos 0)) (bad_request "Amount must be greater than zero")
    wallet ← get_wallet_by_id wallet_id c
    throw_if (text_lt (env.value_of wallet.balance) (env.value_of amount))
        (bad_request "Insufficient balance")
    update_wallet wallet_id (take_balance amount) c

  -- A call with an id that may be `undefined` (`walletId!`): Prisma refuses it.
  unfoldable pub credit_optional : Option String → Decimal → Client → Action Wallet
  unfolding credit
  credit_optional (some id) amount c = credit id amount c
  credit_optional none amount c = do
    throw_if (leb_ℤ amount (pos 0)) (bad_request "Amount must be greater than zero")
    throw invalid_argument

  unfoldable pub debit_optional : Option String → Decimal → Client → Action Wallet
  unfolding debit
  debit_optional (some id) amount c = debit id amount c
  debit_optional none amount c = do
    throw_if (leb_ℤ amount (pos 0)) (bad_request "Amount must be greater than zero")
    throw invalid_argument
