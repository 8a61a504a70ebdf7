-- ===== src/Tests/Webhooks.antt =====
-- The theorems on webhooks at one event and one queue.
use nadbooks_backend.Prelude.{ℕ, ◌≡◌, refl, some, [], ◌∷◌, find_first, false}
use nadbooks_backend.Effects.{World, ok}
use nadbooks_backend.Payments.Transactions.{find_response}
use nadbooks_backend.Webhook.{
  PaystackEvent, handle_paystack_webhook, process_queued_paystack_webhook,
}
use nadbooks_backend.Webhook.Paystack.{paystack_deposit_never_credited}
use nadbooks_backend.Webhook.Queue.{Queue, Job, paystack, process_queue}
use nadbooks_backend.Webhook.Queue.Drain.{process_queue_drains, IsLater, All}
use nadbooks_backend.Tests.Samples.{
  sample_env, sample_signing, sample_gateway, sample_markets, sample_world, differ,
}

abbrev event : PaystackEvent
event = record { event = "charge.success"; reference = some "DEP-1"; json = "{}" }

abbrev answered : World
answered = (handle_paystack_webhook event "digest" sample_world).1

answer : handle_paystack_webhook event "digest" sample_world ≡ (ok "queued", answered)
unfolding handle_paystack_webhook find_response find_first
answer = refl

paystack_deposit_never_credited_example :
    process_queued_paystack_webhook event answered ≡ (ok tt, answered)
paystack_deposit_never_credited_example =
    paystack_deposit_never_credited event "digest" "DEP-1" "queued" sample_world answered answered
      refl refl (differ "DEP-1" "" refl) answer refl

abbrev job : ℕ → Job
job n = record { id = "new"; payload = paystack event; timestamp = 0; score = n }

abbrev queue : Queue
queue = record { world = sample_world; jobs = job 0 ∷ job 9000 ∷ []; is_processing = false }

process_queue_drains_example :
    All (IsLater 0) (process_queue queue).jobs × ((process_queue queue).is_processing ≡ false)
process_queue_drains_example = process_queue_drains queue refl
