-- ===== src/Payments/Transactions.antt =====
-- src/payments/shared/transaction.service.ts. A new row stands first in its table, so a query by
-- `createdAt` descending keeps the order of the list.
use nadbooks_backend.Prelude.{
  String, Bool, true, false, ◌==◌, ◌&&◌, ◌||◌, Option, none, some, List, ◌∷◌, find_first, find_many,
  update_first, is_text, is_some,
}
use nadbooks_backend.Schema.{
  Db, Transaction, TransactionType, TransactionStatus, PaymentMethod, ProviderResponse, same_method,
  same_type,
}
use nadbooks_backend.Effects.{
  Env, Action, Client, not_found, record_not_found, unique_violation, pure, gets, or_throw, ask,
  ◌>>=◌, ◌>>◌, modify, throw_if, read, write,
}
use nadbooks_backend.Wallet.{find_wallet}

abbrev pub has_id : String → Transaction → Bool
has_id id t = t.id == id

abbrev pub has_reference : String → Transaction → Bool
has_reference reference t = t.reference == reference

-- `where: { hash }`; an undefined hash is no condition.
abbrev pub has_hash : Option String → Transaction → Bool
has_hash none t = true
has_hash (some hash) t = is_text t.hash hash

unfoldable pub find_transaction : String → Db → Option Transaction
find_transaction id d = find_first (has_id id) d.transactions

unfoldable pub find_by_reference : String → Db → Option Transaction
find_by_reference reference d = find_first (has_reference reference) d.transactions

unfoldable pub find_by_hash : Option String → Db → Option Transaction
find_by_hash hash d = find_first (has_hash hash) d.transactions

-- `findFirst({ where: { hash, type: WITHDRAWAL } })`
unfoldable pub find_withdrawal_by_hash : String → Db → Option Transaction
find_withdrawal_by_hash hash d =
    find_first (λ t. is_text t.hash hash && same_type t.type TransactionType.withdrawal)
      d.transactions

abbrev pub is_withdrawal : Option String → Transaction → Bool
is_withdrawal none t = same_type t.type TransactionType.withdrawal
is_withdrawal (some reference) t =
    has_reference reference t && same_type t.type TransactionType.withdrawal

-- `findFirst({ where: { reference, type: WITHDRAWAL } })`; an undefined reference is no condition.
unfoldable pub find_withdrawal : Option String → Db → Option Transaction
find_withdrawal reference d = find_first (is_withdrawal reference) d.transactions

-- The unique columns of a new row: its id, its reference, and its hash if it has one.
abbrev pub clashes : Transaction → Transaction → Bool
clashes new t =
    t.id == new.id
    || (t.reference == new.reference
        || elim new.hash [ none ↦ false | some hash ↦ is_text t.hash hash ])

unfoldable pub set_transaction : String → (Transaction → Transaction) → Db → Db
set_transaction id f d = record d { transactions = update_first (has_id id) f d.transactions }

unfoldable pub add_transaction : Transaction → Db → Db
add_transaction t d = record d { transactions = t ∷ d.transactions }

-- The row with the id that the database made for it.
unfoldable pub record_transaction : ⦃env : Env⦄ → Transaction → Client → Action Transaction
record_transaction ⦃env⦄ given c = do
  id ← ask env.random
  let row : Transaction = record given { id = id }
  taken ← gets (λ w. is_some (find_first (clashes row) (read c w).transactions))
  throw_if taken unique_violation
  modify (λ w. write c (add_transaction row (read c w)) w)
  pure row

unfoldable pub get_transaction_by_reference : String → Action Transaction
get_transaction_by_reference reference = do
  or_throw (← gets (λ w. find_by_reference reference w.db)) (not_found "Transaction not found")

unfoldable pub get_transaction_by_id : String → Action Transaction
get_transaction_by_id id = do
  or_throw (← gets (λ w. find_transaction id w.db)) (not_found "Transaction not found")

-- `client.transaction.update({ where: { id }, data })` for data that leaves the unique columns alone.
unfoldable pub update_transaction :
    String → (Transaction → Transaction) → Client → Action Transaction
update_transaction id f c = do
  t ← or_throw (← gets (λ w. find_transaction id (read c w))) record_not_found
  modify (λ w. write c (set_transaction id f (read c w)) w)
  pure (f t)

unfoldable pub update_transaction_by_reference :
    String → (Transaction → Transaction) → Action Transaction
update_transaction_by_reference reference f = do
  t ← or_throw (← gets (λ w. find_by_reference reference w.db)) record_not_found
  modify (λ w. record w {
    db = record w.db { transactions = update_first (has_reference reference) f w.db.transactions };
  })
  pure (f t)

-- `data: { status }`
abbrev pub with_status : TransactionStatus → Transaction → Transaction
with_status status t = record t { status = status }

-- A wallet belongs to the user.
abbrev pub owns : Db → String → Option String → Bool
owns d user_id none = false
owns d user_id (some id) = elim (find_wallet id d) [
  | none ↦ false
  | some wallet ↦ wallet.user_id == user_id
]

abbrev pub same_status : TransactionStatus → TransactionStatus → Bool
same_status TransactionStatus.pending TransactionStatus.pending = true
same_status TransactionStatus.success TransactionStatus.success = true
same_status TransactionStatus.failed TransactionStatus.failed = true
same_status _ _ = false

abbrev pub fits_type : Option TransactionType → Transaction → Bool
fits_type none t = true
fits_type (some type) t = same_type t.type type

abbrev pub fits_status : Option TransactionStatus → Transaction → Bool
fits_status none t = true
fits_status (some status) t = same_status t.status status

-- Those that the user sends or receives.
unfoldable pub get_transactions_by_user :
    String → Option TransactionType → Option TransactionStatus → Action (List Transaction)
get_transactions_by_user user_id type status = gets (λ w.
    find_many
      (λ t.
        (owns w.db user_id t.sender_wallet_id || owns w.db user_id t.recipient_wallet_id)
        && (fits_type type t && fits_status status t))
      w.db.transactions)

unfoldable pub get_all_transactions :
    Option TransactionType → Option TransactionStatus → Action (List Transaction)
get_all_transactions type status =
    gets (λ w. find_many (λ t. fits_type type t && fits_status status t) w.db.transactions)

abbrev pub is_response : PaymentMethod → String → ProviderResponse → Bool
is_response provider reference r = same_method r.provider provider && r.reference == reference

abbrev pub has_response_reference : String → ProviderResponse → Bool
has_response_reference reference r = r.reference == reference

unfoldable pub find_response : PaymentMethod → String → Db → Option ProviderResponse
find_response provider reference d =
    find_first (is_response provider reference) d.provider_responses

-- `findProviderResponse` reads through `this.db`, also inside a transaction.
unfoldable pub find_provider_response : PaymentMethod → String → Action (Option ProviderResponse)
find_provider_response provider reference = gets (λ w. find_response provider reference w.db)

unfoldable pub add_response : ProviderResponse → Db → Db
add_response r d = record d { provider_responses = r ∷ d.provider_responses }

-- `providerResponse.create`: a reference is unique, whoever the provider is.
unfoldable pub create_response :
    ⦃env : Env⦄ → Option String → PaymentMethod → String → String → Client → Action ProviderResponse
create_response ⦃env⦄ transaction_id provider reference response c = do
  id ← ask env.random
  taken ←
      gets
        (λ w. is_some (find_first (has_response_reference reference) (read c w).provider_responses))
  throw_if taken unique_violation
  let row : ProviderResponse = record {
    id = id;
    transaction_id = transaction_id;
    provider = provider;
    reference = reference;
    response = response;
  }
  modify (λ w. write c (add_response row (read c w)) w)
  pure row

unfoldable pub save_provider_response :
    ⦃env : Env⦄
    → Option String
    → PaymentMethod
    → String
    → String
    → Client
    → Action (Option ProviderResponse)
unfolding find_provider_response create_response
save_provider_response transaction_id provider reference response c = do
  existing ← find_provider_response provider reference
  elim existing [
    | some r ↦ pure none
    | none ↦ do r ← create_response transaction_id provider reference response c; pure (some r)
  ]
