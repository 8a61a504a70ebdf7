-- ===== src/Payments/Deposit/Idle.antt =====
-- The verifications of a deposit that change nothing.

use nadbooks_backend.Prelude.{false, ◌≡◌, refl, ◌∙◌, none, some, arith, ap, inl, inr}
use nadbooks_backend.Schema.{Db, Transaction, paystack, crypto, is_pending}
use nadbooks_backend.Effects.{World, Env, ok, ◌>>=◌}
use nadbooks_backend.Effects.Laws.{Result-cases, Keeps, bind-Keeps, bind-ok, bind-err}
use nadbooks_backend.PriceFeed.{Markets}
use nadbooks_backend.Payments.Gateway.{Gateway, VerifyInput, Verification}
use nadbooks_backend.Payments.Transactions.{find_by_hash}
use nadbooks_backend.Payments.Deposit.Providers.{
  verify_crypto, verify_paystack, only_status, paystack_status,
}
use nadbooks_backend.Payments.Deposit.{
  verify_deposit, apply_verification, settle_pending, verify_found, verify_by_hash, sender_address,
}

module _ ⦃env : Env⦄ ⦃gateway : Gateway⦄ ⦃markets : Markets⦄ (d : Db) where
  abbrev Same : World → Type 0
  Same w = w.db ≡ d

  verify_paystack-Same : (dto : VerifyInput) → Keeps Same (verify_paystack dto)
  unfolding verify_paystack
  verify_paystack-Same dto w h = ground arith

  pub verify_crypto-Same : (dto : VerifyInput) → Keeps Same (verify_crypto dto)
  unfolding verify_crypto
  verify_crypto-Same dto w h = ground arith

  apply_none-Same :
      (input : VerifyInput) (v : Verification)
      → v.success ≡ none
      → Keeps Same (apply_verification paystack input v)
  unfolding apply_verification
  apply_none-Same input v unset w h = ground arith

  -- Paystack's answer never has `success`.
  verify_paystack-unset :
      (dto : VerifyInput) (w : World) (v : Verification)
      → (verify_paystack dto w).0 ≡ ok v
      → v.success ≡ none
  unfolding verify_paystack
  verify_paystack-unset dto w v h =
      elim (Result-cases (gateway.verify_status w.step dto.reference)) [
        | inl (status, e) ↦
            let same : v ≡ only_status (paystack_status status) = ground arith in
            ap (λ (v : Verification). v.success) same
        | inr (x, e) ↦ absurd (ground arith)
      ]

  apply_only-Same :
      (dto input : VerifyInput)
      → Keeps Same (verify_paystack dto >>= apply_verification paystack input)
  apply_only-Same dto input w h =
      let m = verify_paystack dto in
      let f = apply_verification paystack input in
      elim (Result-cases (m w).0) [
        | inl (v, e) ↦ rw (bind-ok m f w v e) (
            apply_none-Same input v (verify_paystack-unset dto w v e) (m w).1
              (verify_paystack-Same dto w h))
        | inr (x, e) ↦ rw (bind-err m f w x e) (verify_paystack-Same dto w h)
      ]

  apply_settled-Same :
      (input : VerifyInput) (v : Verification) (t : Transaction)
      → find_by_hash input.hash d ≡ some t
      → is_pending t.status ≡ false
      → Keeps Same (apply_verification crypto input v)
  unfolding apply_verification settle_pending
  apply_settled-Same input v t found done w h =
      let found' : find_by_hash input.hash w.db ≡ some t = ap (find_by_hash input.hash) h ∙ found in
      ground (arith, found')

  verify_found-Same :
      (input : VerifyInput) (t : Transaction)
      → find_by_hash input.hash d ≡ some t
      → is_pending t.status ≡ false
      → Keeps Same (verify_found input t)
  unfolding verify_found
  verify_found-Same input t found done =
      let checked : VerifyInput = record input {
        transfered_amount = some t.amount;
        buyer_address = sender_address t.metadata;
      } in
      bind-Keeps Same (verify_crypto checked) (apply_verification crypto checked)
        (verify_crypto-Same checked) (λ v. apply_settled-Same checked v t found done)

module _ ⦃env : Env⦄ ⦃gateway : Gateway⦄ ⦃markets : Markets⦄ where
  -- Verifying a Paystack deposit changes nothing in the database, whatever Paystack answers.
  pub verify_paystack_changes_nothing :
      (input : VerifyInput) (w : World) → (verify_deposit paystack input w).1.db ≡ w.db
  unfolding verify_deposit
  verify_paystack_changes_nothing input w = apply_only-Same w.db input input w refl

  -- Verifying a crypto deposit that is not pending changes nothing in the database.
  pub verify_settled_changes_nothing :
      (input : VerifyInput) (t : Transaction) (w : World)
      → find_by_hash input.hash w.db ≡ some t
      → is_pending t.status ≡ false
      → (verify_deposit crypto input w).1.db ≡ w.db
  unfolding verify_deposit verify_by_hash
  verify_settled_changes_nothing input t w found done =
      ground (arith, verify_found-Same w.db input t found done w refl)
