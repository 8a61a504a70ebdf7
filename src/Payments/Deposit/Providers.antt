-- ===== src/Payments/Deposit/Providers.antt =====
-- src/payments/deposit/providers: Paystack's checkout, and receipts of the deposit contract.
use Prim.Native.String
use nadbooks_backend.Prelude.{
  String, Bool, true, false, ◌==◌, ◌&&◌, ◌||◌, not, Option, none, some, eqb, if◌then◌else◌,
  find_first,
}
use nadbooks_backend.Prelude.Int.{pos_part, neg_part}
use nadbooks_backend.Schema.{Decimal}
use nadbooks_backend.Effects.{Result, ok, err, Action, pure, request, ◌>>=◌, catch}
use nadbooks_backend.Payments.Gateway.{
  Gateway, DepositResult, PaymentStatus, pending, success, failed, PaystackDeposit, VerifyInput,
  Verification, Log, Receipt,
}

abbrev pub only_status : PaymentStatus → Verification
only_status status = record {
  status = status;
  success = none;
  decoded_sender = none;
  decoded_amount = none;
}

abbrev pub failed_verification : Verification
failed_verification = only_status failed

abbrev pub paystack_status : Option String → PaymentStatus
paystack_status none = failed
paystack_status (some status) =
    if status == "success" then success else if status == "pending" then pending else failed

-- A check that ends the verification when it fails.
abbrev pub checked : Bool → Result Verification → Result Verification
checked true rest = rest
checked false rest = ok failed_verification

abbrev pub and_then : {A B : Type 0} → Result A → (A → Result B) → Result B
and_then (ok a) f = f a
and_then (err e) f = err e

abbrev pub is_zero : Decimal → Bool
is_zero a = eqb (pos_part a) 0 && eqb (neg_part a) 0

module _ ⦃gateway : Gateway⦄ where
  unfoldable pub initiate_paystack : PaystackDeposit → Action DepositResult
  initiate_paystack dto = do
    answer ← request (λ n. gateway.initialize n dto)
    pure (record {
      status = pending;
      reference = some answer.reference;
      payment_url = some answer.authorization_url;
      destination_address = none;
      amount = none;
      currency = none;
    })

  unfoldable pub initiate_crypto : String → Decimal → Action DepositResult
  initiate_crypto reference amount = pure (record {
    status = pending;
    reference = some reference;
    payment_url = none;
    destination_address = some gateway.contract_address;
    amount = some amount;
    currency = some "MON";
  })

  unfoldable pub verify_paystack : VerifyInput → Action Verification
  verify_paystack dto = do
    status ← request (λ n. gateway.verify_status n dto.reference)
    pure (only_status (paystack_status status))

  -- The log of our contract, addresses compared in lower case.
  abbrev pub is_ours : Log → Bool
  is_ours log = gateway.to_lower_case log.address == gateway.to_lower_case gateway.contract_address

  -- `!dto.buyerAddress`, or the sender is the buyer.
  abbrev pub sender_ok : Option String → String → Bool
  sender_ok none sender = true
  sender_ok (some buyer) sender =
      buyer == "" || gateway.to_lower_case sender == gateway.to_lower_case buyer

  -- `!dto.transferedAmount`, or it is the same number.
  abbrev pub amount_ok : Option Decimal → String → Bool
  amount_ok none amount = true
  amount_ok (some expected) amount = is_zero expected || gateway.same_number expected amount

  -- The sender is in the last 20 bytes of the first word of the data, the amount is the second.
  unfoldable pub decode : VerifyInput → Log → Result Verification
  decode dto log =
      and_then (gateway.get_address (String.◌++◌ "0x" (String.slice log.bytes 26 66))) λ sender.
        and_then
          (gateway.big_int (String.◌++◌ "0x" (String.slice log.bytes 66 (String.len log.bytes))))
          λ raw.
            let amount = gateway.format_ether raw in
            checked (not (eqb raw 0)) (
              checked (sender_ok dto.buyer_address sender) (
                checked (amount_ok dto.transfered_amount amount) (
                  ok (record {
                    status = success;
                    success = none;
                    decoded_sender = some sender;
                    decoded_amount = some amount;
                  }))))

  unfoldable pub check_log : VerifyInput → Option Log → Result Verification
  unfolding decode
  check_log dto none = ok failed_verification
  check_log dto (some log) = checked (not (log.bytes == "")) (decode dto log)

  unfoldable pub check_receipt : VerifyInput → Option Receipt → Result Verification
  unfolding check_log
  check_receipt dto none = ok failed_verification
  check_receipt dto (some receipt) =
      if eqb receipt.block_number 0
      then ok (only_status pending)
      else checked (not (eqb receipt.status 0)) (check_log dto (find_first is_ours receipt.logs))

  -- Every error is caught and counts as a failed payment.
  unfoldable pub verify_crypto : VerifyInput → Action Verification
  unfolding check_receipt
  verify_crypto dto =
      catch
        (do
          receipt ← request (λ n. gateway.receipt n dto.hash)
          λ w. (check_receipt dto receipt, w))
        (λ e. pure failed_verification)
