-- ===== src/Payments/Withdrawal.antt =====
-- src/payments/withdrawal/withdrawal.service.ts
pub mod Providers
pub mod PinLock
pub mod Pin
pub mod Start
pub mod Outcome
use Prim.Native.String
use nadbooks_backend.Prelude.{
  ℕ, String, Bool, true, false, ◌==◌, ◌&&◌, not, Option, none, some, List, [], ◌∷◌, or_else, leb,
  ◌-◌, if◌then◌else◌,
}
use nadbooks_backend.Prelude.Int.{ℤ, pos, ltb_ℤ}
use nadbooks_backend.Schema.{
  Decimal, Metadata, Transaction, TransactionType, TransactionStatus, PaymentMethod, paystack,
  crypto, wallet, is_pending, Wallet,
}
use nadbooks_backend.Effects.{
  World, Env, Value, Error, count, Action, Void, main, tx, bad_request, pure, throw, gets, ok, err,
  or_throw, ◌>>=◌, ◌>>◌, throw_if, transaction, catch,
}
use nadbooks_backend.Redis.{get, incr, expire}
use nadbooks_backend.Users.Store.{find_user}
use nadbooks_backend.Wallet.{get_wallet, debit, debit_optional, credit_optional}
use nadbooks_backend.Auth.Crypto.{Crypto, JwtPayload}
use nadbooks_backend.Payments.Gateway.{Gateway, Bank}
use nadbooks_backend.Payments.Refs.{generate_ref}
use nadbooks_backend.Payments.Transactions.{
  find_withdrawal, record_transaction, update_transaction, with_status, has_hash,
}
use nadbooks_backend.Payments.Withdrawal.Pin.{verify_user_pin}
use nadbooks_backend.Payments.Withdrawal.Providers.{pay_bank, pay_crypto}

-- `WithdrawDto`
pub record WithdrawRequest : Type 0 where
  pub method : PaymentMethod
  pub amount : Decimal
  pub pin : String
  pub account_number : String
  pub account_name : String
  pub bank_code : String
  pub wallet_address : String

abbrev pub recipient_metadata : PaymentMethod → String → Option Metadata
recipient_metadata crypto address =
    if address == "" then none else some (("recipientAddress", address) ∷ [])
recipient_metadata _ address = none

abbrev pub with_hash : String → Transaction → Transaction
with_hash hash t = record t { hash = some hash; status = TransactionStatus.success }

-- `metadata: { error: error.message }` replaces the metadata.
abbrev pub with_failure : String → Transaction → Transaction
with_failure message t = record t {
  status = TransactionStatus.failed;
  metadata = some (("error", message) ∷ []);
}

abbrev pub message_of : Error → String
message_of (Error.bad_request m) = m
message_of (Error.not_found m) = m
message_of (Error.unauthorized m) = m
message_of (Error.conflict m) = m
message_of (Error.forbidden m) = m
message_of (Error.plain m) = m
message_of (Error.external m) = m
message_of (Error.too_many_requests n) = "Too many requests"
message_of Error.record_not_found = "Record to update not found"
message_of Error.unique_violation = "Unique constraint failed"
message_of Error.invalid_argument = "Invalid argument"

module _ ⦃env : Env⦄ ⦃crypto_lib : Crypto⦄ ⦃gateway : Gateway⦄ where
  -- The provider of the request's method is asked to pay; the answer is a reference or a hash.
  unfoldable pub pay : WithdrawRequest → String → Action String
  unfolding pay_bank pay_crypto
  pay dto reference = elim dto.method [
    | crypto ↦ pay_crypto (record {
      amount = dto.amount;
      reference = reference;
      reciever_address = dto.wallet_address;
    })
    | _ ↦ pay_bank (record {
      amount = dto.amount;
      reason = String.◌++◌ "Withdrawal of " (String.◌++◌ (gateway.to_text dto.amount) " BOOKS");
      account_number = dto.account_number;
      bank_code = dto.bank_code;
      name = dto.account_name;
    })
  ]

  -- After the payment: a crypto withdrawal is debited and settled, a bank transfer stays pending
  -- until its webhook.
  unfoldable pub record_payout :
      PaymentMethod → String → Decimal → Transaction → String → Action String
  unfolding debit update_transaction
  record_payout crypto wallet_id amount t result = do
    debit wallet_id amount main
    update_transaction t.id (with_hash result) main
    pure result
  record_payout _ wallet_id amount t result =
      update_transaction t.id (with_status TransactionStatus.pending) main >> pure result

  -- The body of the `try`.
  unfoldable pub pay_and_record : WithdrawRequest → String → Decimal → Transaction → Action String
  unfolding pay record_payout
  pay_and_record dto wallet_id amount t =
      pay dto t.reference >>= record_payout dto.method wallet_id amount t

  unfoldable pub fail_withdrawal : Transaction → Error → Action String
  unfolding update_transaction
  fail_withdrawal t e = update_transaction t.id (with_failure (message_of e)) main >> throw e

  unfoldable pub try_payout : WithdrawRequest → Wallet → Transaction → Action String
  unfolding pay_and_record fail_withdrawal
  try_payout dto held t = catch (pay_and_record dto held.id dto.amount t) (fail_withdrawal t)

  -- The row that a withdrawal records.
  abbrev pub withdrawal_row : WithdrawRequest → String → Wallet → Transaction
  withdrawal_row dto reference held = record {
    id = "";
    type = TransactionType.withdrawal;
    amount = dto.amount;
    payment_method = dto.method;
    sender_wallet_id = some held.id;
    recipient_wallet_id = some held.id;
    reference = reference;
    hash = none;
    status = TransactionStatus.pending;
    metadata = recipient_metadata dto.method dto.wallet_address;
    order_id = none;
  }

  unfoldable pub record_and_pay : WithdrawRequest → String → Wallet → Action String
  unfolding record_transaction try_payout
  record_and_pay dto reference held =
      record_transaction (withdrawal_row dto reference held) main >>= try_payout dto held

  -- Here the balance and the amount are compared as numbers, by `greaterThan`.
  unfoldable pub withdraw_from : WithdrawRequest → String → Wallet → Action String
  unfolding record_and_pay
  withdraw_from dto reference held =
      throw_if (ltb_ℤ held.balance dto.amount) (bad_request "Insufficient balance")
      >> record_and_pay dto reference held

  unfoldable pub withdraw_with : JwtPayload → WithdrawRequest → String → Action String
  unfolding get_wallet withdraw_from
  withdraw_with user dto reference = get_wallet user.sub main >>= withdraw_from dto reference

  unfoldable pub initiate_supported : JwtPayload → WithdrawRequest → Action String
  unfolding generate_ref withdraw_with
  initiate_supported user dto =
      generate_ref TransactionType.withdrawal user.sub >>= withdraw_with user dto

  unfoldable pub initiate_by : PaymentMethod → JwtPayload → WithdrawRequest → Action String
  unfolding initiate_supported
  initiate_by wallet user dto = throw (bad_request "Unsupported withdrawal method")
  initiate_by _ user dto = initiate_supported user dto

  unfoldable pub initiate_withdrawal : JwtPayload → WithdrawRequest → Action String
  unfolding verify_user_pin initiate_by
  initiate_withdrawal user dto = verify_user_pin user.sub dto.pin >> initiate_by dto.method user dto

module _ ⦃env : Env⦄ where
  unfoldable pub debit_pending : Transaction → Action Void
  unfolding debit_optional update_transaction
  debit_pending t =
      if is_pending t.status
      then transaction (do
        debit_optional t.sender_wallet_id t.amount tx
        update_transaction t.id (with_status TransactionStatus.success) tx
        pure tt)
      else pure tt

  unfoldable pub handle_successful_paystack_withdrawal : Option String → Action Void
  unfolding debit_pending
  handle_successful_paystack_withdrawal reference = do
    found ← gets (λ w. find_withdrawal reference w.db)
    elim found [ none ↦ pure tt | some t ↦ debit_pending t ]

  -- Marks the withdrawal failed and credits its amount.
  unfoldable pub refund_pending : Transaction → Action Void
  unfolding credit_optional update_transaction
  refund_pending t =
      if is_pending t.status
      then transaction (do
        update_transaction t.id (with_status TransactionStatus.failed) tx
        credit_optional t.sender_wallet_id t.amount tx
        pure tt)
      else pure tt

  unfoldable pub handle_failed_paystack_withdrawal : Option String → Action Void
  unfolding refund_pending
  handle_failed_paystack_withdrawal reference = do
    found ← gets (λ w. find_withdrawal reference w.db)
    elim found [ none ↦ pure tt | some t ↦ refund_pending t ]
