-- ===== src/Tests/Payments.antt =====
-- The theorems on payments at one deposit, one withdrawal and one checkout.
use nadbooks_backend.Prelude.{ℕ, ◌≡◌, ◌≢◌, refl, some, none, [], ◌∷◌, find_first, update_first}
use nadbooks_backend.Prelude.Int.{◌*ℤ◌, pos, ◌+ℤ◌, ◌-ℤ◌, int_laws}
use nadbooks_backend.Schema.{Transaction, TransactionStatus, paystack, crypto, wallet}
use nadbooks_backend.Effects.{World, ok}
use nadbooks_backend.Users.Store.{find_user}
use nadbooks_backend.Wallet.{find_wallet, find_user_wallet}
use nadbooks_backend.Wallet.Balance.{Moved, total}
use nadbooks_backend.Auth.Crypto.{payload_of}
use nadbooks_backend.Payments.Gateway.{VerifyInput, Verification, PaymentStatus}
use nadbooks_backend.Payments.Transactions.{
  find_transaction, find_by_hash, find_withdrawal, with_status, set_transaction, add_transaction,
}
use nadbooks_backend.Payments.Deposit.{verify_deposit, with_context}
use nadbooks_backend.Payments.Deposit.Providers.{verify_crypto}
use nadbooks_backend.Payments.Deposit.Settlement.{Creditable}
use nadbooks_backend.PriceFeed.{Converted, convert_mon_to_books}
use nadbooks_backend.Payments.Deposit.Chain.{Answered, chain_deposit_credited_once}
use nadbooks_backend.Payments.Deposit.Soundness.{Genuine, verify_crypto_sound}
use nadbooks_backend.Payments.Deposit.Idle.{
  verify_paystack_changes_nothing, verify_settled_changes_nothing,
}
use nadbooks_backend.Payments.Withdrawal.{
  WithdrawRequest, initiate_withdrawal, handle_successful_paystack_withdrawal,
  handle_failed_paystack_withdrawal,
}
use nadbooks_backend.Payments.Withdrawal.Outcome.{
  Pending, successful_withdrawal_debits, failed_withdrawal_credits,
  failed_bank_withdrawal_creates_money,
}
use nadbooks_backend.Payments.Checkout.{CheckoutRequest, Checkout, create_order_checkout}
use nadbooks_backend.Payments.Checkout.WalletPayment.{wallet_checkout_fails}
use nadbooks_backend.Tests.Samples.{
  ada, ada_wallet, differ, deposit_row, paid_row, withdrawal_row, sample_env, sample_crypto,
  sample_gateway, sample_markets, sample_world, sample_db,
}

creditable : Creditable "w1" deposit_row ada_wallet sample_db
unfolding find_wallet find_transaction find_first
creditable = record { waiting = refl; recipient = refl; held = refl; listed = refl }

abbrev input : VerifyInput
input = record {
  reference = none;
  hash = some "0xh";
  buyer_address = some "0xs";
  transfered_amount = some (pos 500);
}

abbrev verified : Verification
verified = record {
  status = PaymentStatus.success;
  success = none;
  decoded_sender = some "0xs";
  decoded_amount = some "500";
}

verify_crypto_sound_example : Genuine input 0 verified
unfolding verify_crypto find_first
verify_crypto_sound_example =
    verify_crypto_sound input sample_world (record sample_world { step = 1 }) verified refl refl

verify_paystack_changes_nothing_example :
    (verify_deposit paystack input sample_world).1.db ≡ sample_db
verify_paystack_changes_nothing_example = verify_paystack_changes_nothing input sample_world

verify_settled_changes_nothing_example :
    (verify_deposit crypto (record input { hash = some "0xp" }) sample_world).1.db ≡ sample_db
unfolding find_by_hash find_first
verify_settled_changes_nothing_example =
    verify_settled_changes_nothing (record input { hash = some "0xp" }) paid_row sample_world refl
      refl

abbrev converted : Converted
converted = record {
  books_amount = pos 3_375_000_000;
  context =
      ("monAmount", "2") ∷ ("monUsdtPrice", "2") ∷ ("usdNgnRate", "2") ∷ ("booksAmount", "2") ∷ [];
}

abbrev at_step : ℕ → World
at_step n = record sample_world { step = n }

answered :
    Answered input "w1" "500" deposit_row ada_wallet verified converted sample_world
      (at_step 1)
      (at_step 4)
unfolding find_by_hash find_first verify_crypto convert_mon_to_books ◌*ℤ◌
answered = record {
  hash = "0xh";
  given = refl;
  filled = differ "0xh" "" refl;
  found = refl;
  verified = refl;
  succeeded = refl;
  shown = refl;
  converted = refl;
  positive = omega int_laws;
  creditable = creditable;
}

chain_deposit_credited_once_example :
    ((verify_deposit crypto input sample_world).0 ≡ ok verified)
    × Moved "w1" (pos 3_375_000_000) sample_db (verify_deposit crypto input sample_world).1.db
    × (find_transaction "t1" (verify_deposit crypto input sample_world).1.db
        ≡ some (with_context converted.context deposit_row))
    × ((verify_deposit crypto input (verify_deposit crypto input sample_world).1).1.db
        ≡ (verify_deposit crypto input sample_world).1.db)
chain_deposit_credited_once_example =
    chain_deposit_credited_once input "w1" "500" deposit_row ada_wallet verified converted
      sample_world (at_step 1) (at_step 4) answered

abbrev request : WithdrawRequest
request = record {
  method = paystack;
  amount = pos 500;
  pin = "1234";
  account_number = "0123456789";
  account_name = "Ada Obi";
  bank_code = "058";
  wallet_address = "";
}

waiting : Pending "w1" withdrawal_row ada_wallet sample_db
unfolding find_wallet find_transaction find_first
waiting = record {
  waiting = refl;
  sender = refl;
  positive = omega int_laws;
  held = refl;
  listed = refl;
}

abbrev after_success : World
after_success = (handle_successful_paystack_withdrawal (some "WTH-1") sample_world).1

successful_withdrawal_debits_example :
    ((handle_successful_paystack_withdrawal (some "WTH-1") sample_world).0 ≡ ok tt)
    × Moved "w1" (pos 0 -ℤ pos 500) sample_db after_success.db
    × (find_transaction "t3" after_success.db
        ≡ some (with_status TransactionStatus.success withdrawal_row))
unfolding find_withdrawal find_first
successful_withdrawal_debits_example =
    successful_withdrawal_debits "WTH-1" "w1" withdrawal_row ada_wallet sample_world refl waiting
      refl

abbrev after_failure : World
after_failure = (handle_failed_paystack_withdrawal (some "WTH-1") sample_world).1

failed_withdrawal_credits_example :
    ((handle_failed_paystack_withdrawal (some "WTH-1") sample_world).0 ≡ ok tt)
    × Moved "w1" (pos 500) sample_db after_failure.db
    × (find_transaction "t3" after_failure.db
        ≡ some (with_status TransactionStatus.failed withdrawal_row))
unfolding find_withdrawal find_first
failed_withdrawal_credits_example =
    failed_withdrawal_credits "WTH-1" "w1" withdrawal_row ada_wallet sample_world refl waiting

-- No withdrawal yet, and one that was started.
abbrev before_start : World
before_start = record sample_world { db = record sample_db { transactions = [] } }

abbrev started_row : Transaction
started_row = record withdrawal_row {
  id = "new";
  recipient_wallet_id = some "w1";
  reference = "WTH-20260101-USER-1A2B";
}

abbrev started : World
started = (initiate_withdrawal (payload_of ada) request before_start).1

started_found : find_withdrawal (some "WTH-20260101-USER-1A2B") started.db ≡ some started_row
unfolding initiate_withdrawal find_withdrawal find_transaction find_first update_first find_user
    find_user_wallet set_transaction add_transaction
started_found = refl

started_waiting : Pending "w1" started_row ada_wallet started.db
unfolding initiate_withdrawal find_wallet find_transaction find_first update_first find_user
    find_user_wallet set_transaction add_transaction
started_waiting = record {
  waiting = refl;
  sender = refl;
  positive = omega int_laws;
  held = refl;
  listed = refl;
}

failed_bank_withdrawal_creates_money_example :
    total (handle_failed_paystack_withdrawal (some "WTH-20260101-USER-1A2B") started).1.db
    ≡ total before_start.db +ℤ pos 500
failed_bank_withdrawal_creates_money_example =
    failed_bank_withdrawal_creates_money (payload_of ada) request "WTH-20260101-USER-1A2B" "w1"
      started_row ada_wallet before_start started refl refl started_found started_waiting

abbrev checkout_request : CheckoutRequest
checkout_request = record { book_ids = "b1" ∷ []; order_id = none; payment_method = wallet }

wallet_checkout_fails_example :
    ((a : Checkout)
      → (create_order_checkout (payload_of ada) checkout_request sample_world).0 ≢ ok a)
    × ((create_order_checkout (payload_of ada) checkout_request sample_world).1.db ≡ sample_db)
wallet_checkout_fails_example =
    wallet_checkout_fails (payload_of ada) checkout_request sample_world refl
