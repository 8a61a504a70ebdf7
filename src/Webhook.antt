-- ===== src/Webhook.antt =====
-- src/webhook/webhook.service.ts and webhook.controller.ts
pub mod Queue
pub mod Paystack
use Prim.Native.String
use nadbooks_backend.Prelude.{
  is_in, ℕ, String, Bool, true, false, ◌==◌, ◌&&◌, ◌||◌, not, Option, none, some, List, [], ◌∷◌,
  eqb, is_some, or_else, if◌then◌else◌,
}
use nadbooks_backend.Schema.{PaymentMethod, paystack, crypto, ProviderResponse}
use nadbooks_backend.Effects.{
  World, Env, Result, ok, err, Error, Action, Void, main, bad_request, pure, throw, gets, ◌>>=◌,
  ◌>>◌, throw_if, catch,
}
use nadbooks_backend.PriceFeed.{Markets}
use nadbooks_backend.Payments.Gateway.{Gateway, Verification, VerifyInput}
use nadbooks_backend.Payments.Transactions.{
  find_provider_response, create_response, find_withdrawal_by_hash,
}
use nadbooks_backend.Payments.Deposit.{
  verify_deposit, handle_successful_paystack_deposit, handle_failed_paystack_deposit,
}
use nadbooks_backend.Payments.Withdrawal.{
  handle_successful_paystack_withdrawal, handle_failed_paystack_withdrawal,
}

-- The parsed body of a Paystack event: `event`, `data.reference`, and its JSON text.
pub record PaystackEvent : Type 0 where
  pub event : String
  pub reference : Option String
  pub json : String

-- A log of a GRAPHQL event, and a transaction of a FILTERS event.
pub record BlockLog : Type 0 where
  pub hash : Option String
  pub bytes : String

pub record BlockTransaction : Type 0 where
  pub hash : String
  pub status : ℕ
  pub from : String

pub record Block : Type 0 where
  pub transactions : List BlockTransaction
  pub logs : List BlockLog

-- The parsed body of a chain event: its id, and its block if it has one.
pub record ChainEvent : Type 0 where
  pub id : Option String
  pub block : Option Block
  pub json : String

-- What the webhooks take from Node: the keyed digests of a body, and `JSON.parse`.
pub record Signing : Type 0 where
  pub paystack_digest : String → String
  pub alchemy_secret : String
  pub alchemy_digest : String → String
  pub parse : String → Result ChainEvent

module _ ⦃signing : Signing⦄ where
  unfoldable pub verify_paystack_signature : PaystackEvent → String → Bool
  verify_paystack_signature payload signature = signing.paystack_digest payload.json == signature

  unfoldable pub verify_alchemy_signature : String → String → Bool
  verify_alchemy_signature raw_body signature =
      not (signature == "" || signing.alchemy_secret == "")
      && signing.alchemy_digest raw_body == signature

module _ ⦃env : Env⦄ where
  -- `saveProviderResponse(null, provider, reference, payload)`
  unfoldable pub save_provider_response :
      PaymentMethod → String → String → Action (Option ProviderResponse)
  unfolding find_provider_response create_response
  save_provider_response provider reference response = do
    existing ← find_provider_response provider reference
    elim existing [
      | some r ↦ pure none
      | none ↦ do r ← create_response none provider reference response main; pure (some r)
    ]

  -- What both handlers do with the id of an event: a known one is a duplicate, a new one is noted.
  unfoldable pub note_event : PaymentMethod → Option String → String → Action String
  unfolding save_provider_response
  note_event provider none response = pure "queued"
  note_event provider (some reference) response = if reference == "" then pure "queued" else (do
    existing ← find_provider_response provider reference
    elim existing [
      | some r ↦ pure "duplicate"
      | none ↦ do save_provider_response provider reference response; pure "queued"
    ])

module _ ⦃env : Env⦄ ⦃signing : Signing⦄ where
  unfoldable pub handle_paystack_webhook : PaystackEvent → String → Action String
  unfolding verify_paystack_signature note_event
  handle_paystack_webhook payload signature = do
    throw_if (not (verify_paystack_signature payload signature)) (bad_request "unauthorized")
    note_event paystack payload.reference payload.json

  unfoldable pub handle_crypto_webhook : String → String → Action String
  unfolding verify_alchemy_signature note_event
  handle_crypto_webhook raw_body signature =
      if verify_alchemy_signature raw_body signature
      then (do
        payload ← λ w. (signing.parse raw_body, w)
        note_event crypto payload.id payload.json)
      else pure "unauthorized"

module _ ⦃env : Env⦄ ⦃gateway : Gateway⦄ ⦃markets : Markets⦄ where
  unfoldable pub process_queued_paystack_webhook : PaystackEvent → Action Void
  unfolding handle_successful_paystack_deposit handle_failed_paystack_deposit
      handle_successful_paystack_withdrawal handle_failed_paystack_withdrawal
  process_queued_paystack_webhook payload =
      if payload.event == "charge.success"
      then handle_successful_paystack_deposit payload.reference
      else if payload.event == "charge.failed"
      then handle_failed_paystack_deposit payload.reference
      else if payload.event == "transfer.success"
      then handle_successful_paystack_withdrawal payload.reference
      else if payload.event == "transfer.failed"
      then handle_failed_paystack_withdrawal payload.reference
      else pure tt

  -- `null` where the address does not decode.
  abbrev pub decode_depositor_from_log_data : String → Option String
  decode_depositor_from_log_data bytes =
      elim (gateway.get_address (String.◌++◌ "0x" (String.slice bytes 26 66))) [
        | ok address ↦ some address
        | err e ↦ none
      ]

  -- One deposit of an event: the server's own withdrawals and known hashes are skipped, and an
  -- error of the verification is logged.
  unfoldable pub process_deposit : String → String → Action Void
  unfolding find_provider_response verify_deposit
  process_deposit hash buyer = do
    withdrawal ← gets (λ w. find_withdrawal_by_hash hash w.db)
    known ← find_provider_response crypto hash
    if is_some withdrawal || is_some known
        then pure tt
        else catch
            (do
              verify_deposit crypto (record {
                reference = none;
                hash = some hash;
                buyer_address = some buyer;
                transfered_amount = none;
              })
              pure tt)
            (λ e. pure tt)

  -- The loop over `block.logs`, with the hashes that it has seen.
  unfoldable pub process_logs : List String → List BlockLog → Action Void
  unfolding process_deposit
  process_logs seen [] = pure tt
  process_logs seen (log ∷ logs) =
      let hash = or_else log.hash "" in
      if hash == "" || is_in hash seen then process_logs seen logs else (do
        elim (decode_depositor_from_log_data log.bytes) [
          | none ↦ pure tt
          | some depositor ↦ process_deposit hash depositor
        ]
        process_logs (hash ∷ seen) logs)

  -- The loop over `block.transactions`.
  unfoldable pub process_transactions : List BlockTransaction → Action Void
  unfolding process_deposit
  process_transactions [] = pure tt
  process_transactions (t ∷ ts) = do
    if eqb t.status 1 then process_deposit t.hash t.from else pure tt
    process_transactions ts

  unfoldable pub process_block : Block → Action Void
  unfolding process_logs process_transactions
  process_block block = elim block.transactions [
    | [] ↦ process_logs [] block.logs
    | t ∷ ts ↦ process_transactions (t ∷ ts)
  ]

  unfoldable pub process_queued_crypto_webhook : ChainEvent → Action Void
  unfolding process_block
  process_queued_crypto_webhook payload = elim payload.block [
    | none ↦ pure tt
    | some block ↦ process_block block
  ]
