-- ===== src/Webhook/Paystack.antt =====
-- A Paystack event from its arrival to its processing.
use nadbooks_backend.Prelude.{
  String, true, ◌≡◌, ◌≢◌, ◌∙◌, none, some, arith, find_first, eq_iff, eq_self, Option-cases, inl,
  inr,
}
use nadbooks_backend.Schema.{PaymentMethod, paystack, ProviderResponse}
use nadbooks_backend.Effects.{World, Env, ok}
use nadbooks_backend.PriceFeed.{Markets}
use nadbooks_backend.Payments.Gateway.{Gateway}
use nadbooks_backend.Payments.Transactions.{find_response, add_response, is_response}
use nadbooks_backend.Payments.Deposit.{handle_successful_paystack_deposit}
use nadbooks_backend.Webhook.{
  PaystackEvent, Signing, note_event, handle_paystack_webhook, process_queued_paystack_webhook,
}

module _ ⦃env : Env⦄ where
  find_response-add :
      (provider : PaymentMethod) (reference : String) (r : ProviderResponse) (w : World)
      → is_response provider reference r ≡ true
      → find_response provider reference (add_response r w.db) ≡ some r
  unfolding find_response add_response find_first
  find_response-add provider reference r w h = ground arith

  -- An event that is not refused leaves a response with its reference on record.
  note_event-noted :
      (reference response : String) (w w' : World) (status : String)
      → reference ≢ ""
      → note_event paystack (some reference) response w ≡ (ok status, w')
      → (r : ProviderResponse) × (find_response paystack reference w'.db ≡ some r)
  unfolding note_event
  note_event-noted reference response w w' status given h =
      elim (Option-cases (find_response paystack reference w.db)) [
        | inl new ↦
            let row : ProviderResponse = record {
              id = env.random w.step;
              transaction_id = none;
              provider = paystack;
              reference = reference;
              response = response;
            } in
            let same : w'.db ≡ add_response row w.db = ground (arith, eq_iff reference "") in
            (row, rw same (find_response-add paystack reference row w (eq_self reference)))
        | inr (r, known) ↦ (r, ground (arith, eq_iff reference ""))
      ]

module _ ⦃env : Env⦄ ⦃signing : Signing⦄ ⦃gateway : Gateway⦄ ⦃markets : Markets⦄ where
  -- A deposit whose reference has a response on record is left alone.
  handle_successful_known :
      (reference : String) (r : ProviderResponse) (w : World)
      → find_response paystack reference w.db ≡ some r
      → handle_successful_paystack_deposit (some reference) w ≡ (ok tt, w)
  unfolding handle_successful_paystack_deposit
  handle_successful_known reference r w known = ground arith

  process_success :
      (payload : PaystackEvent) (w : World)
      → payload.event ≡ "charge.success"
      → process_queued_paystack_webhook payload w
        ≡ handle_successful_paystack_deposit payload.reference w
  unfolding process_queued_paystack_webhook
  process_success payload w event = rw ((eq_iff payload.event "charge.success").1 event)

  find_response-kept :
      (reference : String) (w w' : World)
      → w'.db.provider_responses ≡ w.db.provider_responses
      → find_response paystack reference w'.db ≡ find_response paystack reference w.db
  unfolding find_response
  find_response-kept reference w w' kept = rw kept

  handle-note :
      (payload : PaystackEvent) (signature status : String) (w w' : World)
      → handle_paystack_webhook payload signature w ≡ (ok status, w')
      → note_event paystack payload.reference payload.json w ≡ (ok status, w')
  unfolding handle_paystack_webhook
  handle-note payload signature status w w' answered = ground arith

  -- When the arrival of a Paystack event "charge.success" with a reference has been answered, then
  -- as long as the provider responses stay as the arrival left them, processing the queued event
  -- changes nothing: the deposit is not credited and its transaction is not settled.
  pub paystack_deposit_never_credited :
      (payload : PaystackEvent) (signature reference status : String) (w w' w'' : World)
      → payload.event ≡ "charge.success"
      → payload.reference ≡ some reference
      → reference ≢ ""
      → handle_paystack_webhook payload signature w ≡ (ok status, w')
      → w''.db.provider_responses ≡ w'.db.provider_responses
      → process_queued_paystack_webhook payload w'' ≡ (ok tt, w'')
  paystack_deposit_never_credited payload signature reference status w w' w'' event given filled
        answered kept =
      let noted = handle-note payload signature status w w' answered in
      let (r, known) =
        note_event-noted reference payload.json w w' status filled (rw given at noted) in
      process_success payload w'' event
      ∙ (rw given (
          handle_successful_known reference r w''
            (find_response-kept reference w' w'' kept ∙ known)))
