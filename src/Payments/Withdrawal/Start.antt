-- ===== src/Payments/Withdrawal/Start.antt =====
-- What starting a withdrawal does to the wallets.
use mathlib.Core.Path.{subst}
use nadbooks_backend.Prelude.{String, ◌≡◌, refl, sym, arith, List}
use nadbooks_backend.Prelude.Int.{ltb_ℤ}
use nadbooks_backend.Schema.{Transaction, TransactionStatus, paystack, Wallet, Decimal}
use nadbooks_backend.Effects.{World, Env, main, Error, throw, pure, throw_if, bad_request}
use nadbooks_backend.Effects.Laws.{
  Keeps, bind-Keeps, then-Keeps, catch-Keeps, throw_if-Keeps, throw-Keeps, pure-Keeps,
}
use nadbooks_backend.Wallet.{get_wallet}
use nadbooks_backend.Auth.Crypto.{Crypto, JwtPayload}
use nadbooks_backend.Payments.Gateway.{Gateway}
use nadbooks_backend.Payments.Refs.{generate_ref}
use nadbooks_backend.Payments.Transactions.{
  record_transaction, update_transaction, set_transaction, add_transaction, with_status,
}
use nadbooks_backend.Payments.Withdrawal.Pin.{verify_user_pin}
use nadbooks_backend.Payments.Withdrawal.Providers.{pay_bank, pay_crypto}
use nadbooks_backend.Payments.Withdrawal.{
  WithdrawRequest, initiate_withdrawal, initiate_supported, pay_and_record, fail_withdrawal,
  record_payout, try_payout, withdraw_from, record_and_pay, withdrawal_row, withdraw_with,
  initiate_by, pay, with_failure, message_of,
}

module _ ⦃env : Env⦄ (ws : List Wallet) where
  abbrev Kept : World → Type 0
  Kept w = w.db.wallets ≡ ws

  update_transaction-Kept :
      (id : String) (f : Transaction → Transaction) → Keeps Kept (update_transaction id f main)
  unfolding update_transaction set_transaction
  update_transaction-Kept id f w h = ground arith

  record_transaction-Kept : (t : Transaction) → Keeps Kept (record_transaction t main)
  unfolding record_transaction add_transaction
  record_transaction-Kept t w h = ground arith

  module _ ⦃crypto_lib : Crypto⦄ ⦃gateway : Gateway⦄ where
    pay-Kept : (dto : WithdrawRequest) (reference : String) → Keeps Kept (pay dto reference)
    unfolding pay pay_bank pay_crypto
    pay-Kept dto reference w h = ground arith

    fail-Kept : (t : Transaction) (e : Error) → Keeps Kept (fail_withdrawal t e)
    unfolding fail_withdrawal
    fail-Kept t e =
        then-Keeps Kept (update_transaction t.id (with_failure (message_of e)) main) (throw e)
          (update_transaction-Kept t.id (with_failure (message_of e))) (throw-Keeps Kept String e)

    verify_user_pin-Kept : (user_id pin : String) → Keeps Kept (verify_user_pin user_id pin)
    unfolding verify_user_pin
    verify_user_pin-Kept user_id pin w h = ground arith

    module _ (user : JwtPayload) (dto : WithdrawRequest) (bank : dto.method ≡ paystack) where
      record_payout-Kept :
          (wallet_id : String) (amount : Decimal) (t : Transaction) (result : String)
          → Keeps Kept (record_payout dto.method wallet_id amount t result)
      unfolding record_payout
      record_payout-Kept wallet_id amount t result = rw bank (
          then-Keeps Kept (update_transaction t.id (with_status TransactionStatus.pending) main)
            (pure result) (update_transaction-Kept t.id (with_status TransactionStatus.pending))
            (pure-Keeps Kept result))

      try_payout-Kept : (held : Wallet) (t : Transaction) → Keeps Kept (try_payout dto held t)
      unfolding try_payout pay_and_record
      try_payout-Kept held t =
          catch-Keeps Kept (pay_and_record dto held.id dto.amount t) (fail_withdrawal t)
            (bind-Keeps Kept (pay dto t.reference) (record_payout dto.method held.id dto.amount t)
              (pay-Kept dto t.reference) (record_payout-Kept held.id dto.amount t))
            (fail-Kept t)

      withdraw_from-Kept :
          (reference : String) (held : Wallet) → Keeps Kept (withdraw_from dto reference held)
      unfolding withdraw_from record_and_pay
      withdraw_from-Kept reference held =
          let b = ltb_ℤ held.balance dto.amount in
          let e = bad_request "Insufficient balance" in
          let row = withdrawal_row dto reference held in
          then-Keeps Kept (throw_if b e) (record_and_pay dto reference held)
            (throw_if-Keeps Kept b e)
            (bind-Keeps Kept (record_transaction row main) (try_payout dto held)
              (record_transaction-Kept row) (try_payout-Kept held))

      get_wallet-Kept : Keeps Kept (get_wallet user.sub main)
      unfolding get_wallet
      get_wallet-Kept w h = ground arith

      initiate_supported-Kept : Keeps Kept (initiate_supported user dto)
      unfolding initiate_supported withdraw_with generate_ref
      initiate_supported-Kept w h =
          bind-Keeps Kept (get_wallet user.sub main) (withdraw_from dto _) get_wallet-Kept
            (withdraw_from-Kept _) _ h

      initiate_withdrawal-Kept : Keeps Kept (initiate_withdrawal user dto)
      unfolding initiate_withdrawal initiate_by
      initiate_withdrawal-Kept =
          then-Keeps Kept (verify_user_pin user.sub dto.pin) (initiate_by dto.method user dto)
            (verify_user_pin-Kept user.sub dto.pin)
            (subst (λ method. Keeps Kept (initiate_by method user dto)) (sym bank)
              initiate_supported-Kept)

-- Starting a bank withdrawal leaves every wallet as it was, however the call ends.
pub bank_withdrawal_debits_nothing :
    ⦃env : Env⦄ ⦃crypto_lib : Crypto⦄ ⦃gateway : Gateway⦄ (user : JwtPayload)
    (dto : WithdrawRequest) (w : World)
    → dto.method ≡ paystack
    → (initiate_withdrawal user dto w).1.db.wallets ≡ w.db.wallets
bank_withdrawal_debits_nothing user dto w bank =
    initiate_withdrawal-Kept w.db.wallets user dto bank w refl
