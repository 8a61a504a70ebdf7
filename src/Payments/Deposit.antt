-- ===== src/Payments/Deposit.antt =====
-- src/payments/deposit/deposit.service.ts
pub mod Providers
pub mod Settlement
pub mod Soundness
pub mod Idle
pub mod Chain
use nadbooks_backend.Prelude.{
  String, Bool, true, false, ◌==◌, ◌||◌, ◌&&◌, not, Option, none, some, [], ◌∷◌, ◌++◌, or_else,
  if◌then◌else◌,
}
use nadbooks_backend.Schema.{
  Decimal, Metadata, Transaction, TransactionType, TransactionStatus, PaymentMethod, paystack,
  crypto, wallet, is_pending,
}
use nadbooks_backend.Effects.{
  World, Env, Action, Void, main, tx, bad_request, invalid_argument, pure, throw, gets, or_throw,
  ◌>>=◌, ◌>>◌, transaction,
}
use nadbooks_backend.Wallet.{get_wallet, credit_optional}
use nadbooks_backend.Auth.Crypto.{JwtPayload}
use nadbooks_backend.PriceFeed.{Markets, convert_mon_to_books}
use nadbooks_backend.Payments.Gateway.{
  Gateway, DepositResult, PaymentStatus, VerifyInput, Verification,
}
use nadbooks_backend.Payments.Refs.{generate_ref}
use nadbooks_backend.Payments.Transactions.{
  find_by_hash, record_transaction, get_transaction_by_reference, update_transaction, with_status,
  find_provider_response,
}
use nadbooks_backend.Payments.Deposit.Providers.{
  initiate_paystack, initiate_crypto, verify_paystack, verify_crypto, failed_verification,
}

-- `DepositDto`
pub record DepositRequest : Type 0 where
  pub method : PaymentMethod
  pub amount : Decimal
  pub address : Option String
  pub hash : Option String

-- `dto.method === CRYPTO && dto.address ? { senderAddress } : undefined`; "" is falsy.
abbrev pub sender_metadata : PaymentMethod → Option String → Option Metadata
sender_metadata crypto (some address) =
    if address == "" then none else some (("senderAddress", address) ∷ [])
sender_metadata _ _ = none

abbrev pub field_of : String → Metadata → Option String
field_of name [] = none
field_of name ((key, value) ∷ rest) = if key == name then some value else field_of name rest

-- `(metadata as any)?.senderAddress`
abbrev pub sender_address : Option Metadata → Option String
sender_address none = none
sender_address (some fields) = field_of "senderAddress" fields

-- `{ ...tx.metadata, ...context }`
abbrev pub merge : Option Metadata → Metadata → Option Metadata
merge none context = some context
merge (some fields) context = some (context ++ fields)

abbrev pub is_success : PaymentMethod → Verification → Bool
is_success paystack v = or_else v.success false
is_success crypto v = elim v.status [ PaymentStatus.success ↦ true | _ ↦ false ]
is_success wallet v = false

abbrev pub with_context : Metadata → Transaction → Transaction
with_context context t = record t {
  status = TransactionStatus.success;
  metadata = merge t.metadata context;
}

module _ ⦃env : Env⦄ ⦃gateway : Gateway⦄ ⦃markets : Markets⦄ where
  -- The row that `initiateDeposit` records.
  unfoldable pub initiate_deposit_with :
      JwtPayload → DepositRequest → (Transaction → Action DepositResult) → Action DepositResult
  unfolding generate_ref get_wallet record_transaction
  initiate_deposit_with user dto start = do
    reference ← generate_ref TransactionType.deposit user.sub
    held ← get_wallet user.sub main
    row ←
        record_transaction
          (record {
            id = "";
            type = TransactionType.deposit;
            amount = dto.amount;
            payment_method = dto.method;
            sender_wallet_id = none;
            recipient_wallet_id = some held.id;
            reference = reference;
            hash = dto.hash;
            status = TransactionStatus.pending;
            metadata = sender_metadata dto.method dto.address;
            order_id = none;
          })
          main
    start row

  unfoldable pub initiate_deposit : JwtPayload → DepositRequest → Action DepositResult
  unfolding initiate_deposit_with initiate_paystack initiate_crypto
  initiate_deposit user dto = elim dto.method [
    | wallet ↦ throw (bad_request "Unsupported deposit method")
    | paystack ↦ initiate_deposit_with user dto (λ row. initiate_paystack (record {
      amount = dto.amount;
      email = user.email;
      reference = row.reference;
      metadata = ("userId", user.sub) ∷ [];
    }))
    | crypto ↦ initiate_deposit_with user dto (λ row. initiate_crypto row.reference dto.amount)
  ]

  -- What a verified payment changes: the pending transaction with the hash is credited and
  -- settled, in two writes.
  unfoldable pub settle : PaymentMethod → Verification → Transaction → Action Void
  unfolding convert_mon_to_books credit_optional update_transaction
  settle crypto v t = do
    mon_amount ← or_throw v.decoded_amount invalid_argument
    converted ← convert_mon_to_books (gateway.decimal_of mon_amount)
    credit_optional t.recipient_wallet_id converted.books_amount main
    update_transaction t.id (with_context converted.context) main
    pure tt
  settle _ v t = do
    credit_optional t.recipient_wallet_id t.amount main
    update_transaction t.id (with_status TransactionStatus.success) main
    pure tt

  unfoldable pub settle_pending : PaymentMethod → Verification → Transaction → Action Void
  unfolding settle
  settle_pending method v t = if is_pending t.status then settle method v t else pure tt

  -- The part of `verifyDeposit` after the provider has answered.
  unfoldable pub apply_verification :
      PaymentMethod → VerifyInput → Verification → Action Verification
  unfolding settle_pending
  apply_verification method input v =
      if is_success method v
      then (do
        t ←
            or_throw (← gets (λ w. find_by_hash input.hash w.db))
              (bad_request "Transaction not found")
        settle_pending method v t
        pure v)
      else pure v

  -- The provider's check of the transaction that was found, its amount and its sender.
  unfoldable pub verify_found : VerifyInput → Transaction → Action Verification
  unfolding apply_verification verify_crypto
  verify_found input t = do
    let checked : VerifyInput = record input {
      transfered_amount = some t.amount;
      buyer_address = sender_address t.metadata;
    }
    v ← verify_crypto checked
    apply_verification crypto checked v

  unfoldable pub verify_by_hash : VerifyInput → Option Transaction → Action Verification
  unfolding verify_found
  verify_by_hash input none = pure failed_verification
  verify_by_hash input (some t) = verify_found input t

  unfoldable pub verify_deposit : PaymentMethod → VerifyInput → Action Verification
  unfolding verify_by_hash verify_paystack apply_verification
  verify_deposit wallet input = throw (bad_request "Unsupported method")
  verify_deposit paystack input = do v ← verify_paystack input; apply_verification paystack input v
  verify_deposit crypto input =
      if or_else input.hash "" == ""
      then throw (bad_request "Transaction hash is required for crypto verification")
      else (do found ← gets (λ w. find_by_hash input.hash w.db); verify_by_hash input found)

  unfoldable pub credit_pending : Transaction → Action Void
  unfolding credit_optional update_transaction
  credit_pending t =
      if is_pending t.status
      then transaction (do
        credit_optional t.recipient_wallet_id t.amount tx
        update_transaction t.id (with_status TransactionStatus.success) tx
        pure tt)
      else pure tt

  -- `findUnique` refuses an undefined reference.
  unfoldable pub handle_successful_paystack_deposit : Option String → Action Void
  unfolding find_provider_response get_transaction_by_reference credit_pending
  handle_successful_paystack_deposit none = throw invalid_argument
  handle_successful_paystack_deposit (some reference) = do
    existing ← find_provider_response paystack reference
    elim existing [
      | some r ↦ pure tt
      | none ↦ do t ← get_transaction_by_reference reference; credit_pending t
    ]

unfoldable pub handle_failed_paystack_deposit : Option String → Action Void
unfolding get_transaction_by_reference update_transaction
handle_failed_paystack_deposit none = throw invalid_argument
handle_failed_paystack_deposit (some reference) = do
  t ← get_transaction_by_reference reference
  if is_pending t.status
      then (do update_transaction t.id (with_status TransactionStatus.failed) main; pure tt)
      else pure tt
