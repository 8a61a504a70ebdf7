-- ===== src/Webhook/Queue.antt =====
-- src/webhook/webhook-queue.service.ts and src/webhook/webhook.controller.ts. The sorted set of Redis is the
-- list of its members by score; members of one score stand in the order of insertion.
pub mod Drain
use nadbooks_backend.Prelude.{
  ℕ, suc, ◌+◌, ◌<◌, String, Bool, true, false, ◌==◌, not, ◌≡◌, refl, Option, none, some, List, [],
  ◌∷◌, leb, arith, if◌then◌else◌, Bool-cases, inl, inr, eq_self,
}
use nadbooks_backend.Effects.{
  World, Env, Result, ok, err, Error, Action, Void, pure, ask, throw, ◌>>=◌, ◌>>◌,
}
use nadbooks_backend.PriceFeed.{Markets}
use nadbooks_backend.Payments.Gateway.{Gateway}
use nadbooks_backend.Webhook.{
  PaystackEvent, ChainEvent, Signing, handle_paystack_webhook, verify_alchemy_signature,
  process_queued_paystack_webhook, process_queued_crypto_webhook,
}

abbrev pub webhook_delay_ms : ℕ
webhook_delay_ms = 3000

pub data Payload : Type 0 where
  paystack : PaystackEvent → Payload
  crypto : ChainEvent → Payload

pub record Job : Type 0 where
  pub id : String
  pub payload : Payload
  pub timestamp : ℕ
  pub score : ℕ

-- The service: the rest of the server, the sorted set, and the `isProcessing` flag.
pub record Queue : Type 0 where
  pub world : World
  pub jobs : List Job
  pub is_processing : Bool

-- `zadd`
unfoldable pub insert_job : Job → List Job → List Job
insert_job job [] = job ∷ []
insert_job job (j ∷ js) = if leb j.score job.score then j ∷ insert_job job js else job ∷ j ∷ js

-- `zrangebyscore(key, 0, now)`
unfoldable pub due_jobs : ℕ → List Job → List Job
due_jobs now [] = []
due_jobs now (j ∷ js) = let rest = due_jobs now js in if leb j.score now then j ∷ rest else rest

-- `zrem`: members are told apart by the id that they hold.
unfoldable pub remove_job : String → List Job → List Job
remove_job id [] = []
remove_job id (j ∷ js) = let rest = remove_job id js in if j.id == id then rest else j ∷ rest

module _ ⦃env : Env⦄ where
  -- The clock is read for the id, for the timestamp and for the score.
  unfoldable pub new_job : Payload → Action Job
  new_job payload = do
    id ← ask env.random
    timestamp ← ask env.clock
    now ← ask env.clock
    pure (record {
      id = id;
      payload = payload;
      timestamp = timestamp;
      score = now + webhook_delay_ms;
    })

  abbrev pub push_job : Queue → Result Job × World → Queue
  push_job q (ok job, w) = record q { world = w; jobs = insert_job job q.jobs }
  push_job q (err e, w) = record q { world = w }

  unfoldable pub add_to_queue : Payload → Queue → Queue
  unfolding new_job insert_job
  add_to_queue payload q = push_job q (new_job payload q.world)

module _ ⦃env : Env⦄ ⦃signing : Signing⦄ where
  abbrev pub queue_paystack : PaystackEvent → Queue → Result String × World → Result String × Queue
  queue_paystack payload q (ok status, w) =
      (ok "queued", add_to_queue (paystack payload) (record q { world = w }))
  queue_paystack payload q (err e, w) = (err e, record q { world = w })

  -- `WebhookController.handlePaystack`: whatever the service answers, the event is queued.
  unfoldable pub handle_paystack : PaystackEvent → String → Queue → Result String × Queue
  unfolding handle_paystack_webhook add_to_queue
  handle_paystack payload signature q =
      queue_paystack payload q (handle_paystack_webhook payload signature q.world)

  abbrev pub queue_crypto : Queue → Result ChainEvent → Result String × Queue
  queue_crypto q (ok payload) = (ok "queued", add_to_queue (crypto payload) q)
  queue_crypto q (err e) = (err e, q)

  -- `WebhookController.handleCrypto`: it checks the signature and queues, and notes no event id.
  unfoldable pub handle_crypto : Option String → String → Queue → Result String × Queue
  unfolding verify_alchemy_signature add_to_queue
  handle_crypto none signature q = (ok "error", q)
  handle_crypto (some raw_body) signature q =
      if verify_alchemy_signature raw_body signature
      then queue_crypto q (signing.parse raw_body)
      else (ok "unauthorized", q)

module _ ⦃env : Env⦄ ⦃gateway : Gateway⦄ ⦃markets : Markets⦄ where
  unfoldable pub process_job : Payload → Action Void
  unfolding process_queued_paystack_webhook process_queued_crypto_webhook
  process_job (paystack payload) = process_queued_paystack_webhook payload
  process_job (crypto payload) = process_queued_crypto_webhook payload

  -- One round of the loop: a job is removed when it is done, and when it has failed.
  unfoldable pub run_job : Job → Queue → Queue
  run_job job q = record q {
    world = (process_job job.payload q.world).1;
    jobs = remove_job job.id q.jobs;
  }

  unfoldable pub run_jobs : List Job → Queue → Queue
  run_jobs [] q = q
  run_jobs (job ∷ jobs) q = run_jobs jobs (run_job job q)

  -- The poll of every second. A poll that finds another at work returns at once.
  unfoldable pub process_queue : Queue → Queue
  process_queue q =
      if q.is_processing
      then q
      else (let now = env.clock q.world.step in
          let observed = record q.world { step = suc q.world.step } in
          let started = record q { world = observed; is_processing = true } in
          let finished = run_jobs (due_jobs now q.jobs) started in
          record finished { is_processing = false })
