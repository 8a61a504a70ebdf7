-- ===== src/Payments/Withdrawal/Providers.antt =====
-- src/payments/withdrawal/providers
use Prim.Native.String
use nadbooks_backend.Prelude.{String, List}
use nadbooks_backend.Prelude.Int.{pos, ◌*ℤ◌}
use nadbooks_backend.Schema.{Decimal}
use nadbooks_backend.Effects.{Action, Error, plain, external, throw, request, ◌>>=◌, catch}
use nadbooks_backend.Payments.Gateway.{Gateway, PaystackWithdrawal, CryptoWithdrawal, Bank}

-- The `catch` of the Paystack calls: the message is prefixed.
abbrev pub rethrow : {A : Type 0} → String → Error → Action A
rethrow prefix (external m) = throw (plain (String.◌++◌ prefix m))
rethrow prefix e = throw (plain prefix)

module _ ⦃gateway : Gateway⦄ where
  unfoldable pub resolve_bank_account : String → String → Action String
  resolve_bank_account account_number bank_code =
      request (λ n. gateway.resolve_account n account_number bank_code)

  unfoldable pub get_banks : Action (List Bank)
  get_banks = request gateway.banks

  unfoldable pub create_transfer_recipient : PaystackWithdrawal → Action String
  create_transfer_recipient input =
      catch
        (request
          (λ n. gateway.transfer_recipient n input.name input.account_number input.bank_code))
        (rethrow "Paystack transfer recipient error: ")

  -- Paystack wants kobo: a hundredth of the unit.
  abbrev pub in_kobo : Decimal → Decimal
  in_kobo amount = amount *ℤ pos 100

  unfoldable pub pay_bank : PaystackWithdrawal → Action String
  unfolding create_transfer_recipient
  pay_bank input = do
    recipient ← create_transfer_recipient input
    catch
        (request (λ n.
          gateway.transfer n (record {
            amount = in_kobo input.amount;
            recipient = recipient;
            reason = input.reason;
          })))
        (rethrow "Paystack transfer error: ")

  -- Calls `user_withdrawal` of the contract and waits for its receipt.
  unfoldable pub pay_crypto : CryptoWithdrawal → Action String
  pay_crypto input = do
    amount_wei ← request (λ n. gateway.parse_ether input.amount)
    request (λ n. gateway.user_withdrawal n input.reciever_address amount_wei)
