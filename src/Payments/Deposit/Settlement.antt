-- ===== src/Payments/Deposit/Settlement.antt =====
-- What a pending deposit becomes when its success arrives.
use nadbooks_backend.Prelude.{
  String, false, ◌≡◌, refl, ◌∙◌, none, some, arith, find_first-update_both, find_first-fits,
}
use nadbooks_backend.Prelude.Int.{pos, ◌<ℤ◌}
use nadbooks_backend.Schema.{Db, Transaction, TransactionStatus, paystack, Wallet, is_pending}
use nadbooks_backend.Effects.{World, Env, ok}
use nadbooks_backend.Wallet.{find_wallet, set_wallet, add_balance}
use nadbooks_backend.Wallet.Balance.{Moved, Moved-wallets, set_wallet-Moved}
use nadbooks_backend.PriceFeed.{Markets}
use nadbooks_backend.Payments.Gateway.{Gateway}
use nadbooks_backend.Payments.Transactions.{
  find_transaction, find_by_reference, find_response, set_transaction, with_status, has_id,
  has_reference,
}
use nadbooks_backend.Payments.Deposit.{credit_pending, handle_successful_paystack_deposit}

-- The database after a deposit was credited to the wallet `id` and settled.
abbrev pub settled : String → Transaction → Db → Db
settled id t d =
    set_transaction t.id (with_status TransactionStatus.success)
      (set_wallet id (add_balance t.amount) d)

find_by_reference-settled :
    (id reference : String) (t : Transaction) (d : Db)
    → find_transaction t.id d ≡ some t
    → find_by_reference reference d ≡ some t
    → find_by_reference reference (settled id t d) ≡ some (with_status TransactionStatus.success t)
unfolding find_transaction find_by_reference set_transaction set_wallet
find_by_reference-settled id reference t d listed found =
    find_first-update_both (has_id t.id) (has_reference reference)
      (with_status TransactionStatus.success) d.transactions t listed found
      (find_first-fits (has_reference reference) d.transactions t found)

set_transaction-wallets :
    (id : String) (f : Transaction → Transaction) (d : Db)
    → (set_transaction id f d).wallets ≡ d.wallets
unfolding set_transaction
set_transaction-wallets id f d = refl

find_response-settled :
    (id reference : String) (t : Transaction) (d : Db)
    → find_response paystack reference (settled id t d) ≡ find_response paystack reference d
unfolding find_response set_transaction set_wallet
find_response-settled id reference t d = refl

settled-Moved :
    (id : String) (t : Transaction) (wallet : Wallet) (d : Db)
    → find_wallet id d ≡ some wallet
    → Moved id t.amount d (settled id t d)
settled-Moved id t wallet d held =
    Moved-wallets id t.amount d (set_wallet id (add_balance t.amount) d) (settled id t d)
      (set_wallet-Moved (add_balance t.amount) (λ x. refl) id t.amount d wallet held refl)
      (set_transaction-wallets t.id (with_status TransactionStatus.success)
        (set_wallet id (add_balance t.amount) d))

-- A pending deposit to a wallet that is there.
pub record Creditable (id : String) (t : Transaction) (wallet : Wallet) (d : Db) : Type 0 where
  pub waiting : t.status ≡ TransactionStatus.pending
  pub recipient : t.recipient_wallet_id ≡ some id
  pub held : find_wallet id d ≡ some wallet
  pub listed : find_transaction t.id d ≡ some t

module _ ⦃env : Env⦄ ⦃gateway : Gateway⦄ ⦃markets : Markets⦄ where
  credit_pending_run :
      (id : String) (t : Transaction) (wallet : Wallet) (w : World)
      → pos 0 <ℤ t.amount
      → Creditable id t wallet w.db
      → credit_pending t w
        ≡ (ok tt, record w { db = settled id t w.db; session = settled id t w.db })
  unfolding credit_pending find_transaction set_wallet
  credit_pending_run id t wallet w positive c =
      ground (arith, c.waiting, c.recipient, positive, c.held, c.listed)

  credit_settled_run :
      (t : Transaction) (w : World) → is_pending t.status ≡ false → credit_pending t w ≡ (ok tt, w)
  unfolding credit_pending
  credit_settled_run t w done = rw done

  handle_new :
      (reference : String) (t : Transaction) (w : World)
      → find_response paystack reference w.db ≡ none
      → find_by_reference reference w.db ≡ some t
      → handle_successful_paystack_deposit (some reference) w ≡ credit_pending t w
  unfolding handle_successful_paystack_deposit
  handle_new reference t w new found = ground (arith, new, found)

  -- With no Paystack response on record, which a webhook has always stored, the success of a
  -- pending deposit of a positive amount to a wallet that is there raises that wallet's balance,
  -- and the total, by the amount of the deposit, leaves the other wallets alone and settles the
  -- transaction; a repeated success changes nothing.
  pub paystack_deposit_credited_once :
      (reference id : String) (t : Transaction) (wallet : Wallet) (w : World)
      → find_response paystack reference w.db ≡ none
      → find_by_reference reference w.db ≡ some t
      → pos 0 <ℤ t.amount
      → Creditable id t wallet w.db
      → let (r, w') = handle_successful_paystack_deposit (some reference) w in
        (r ≡ ok tt)
        × Moved id t.amount w.db w'.db
        × (find_by_reference reference w'.db ≡ some (with_status TransactionStatus.success t))
        × (handle_successful_paystack_deposit (some reference) w' ≡ (ok tt, w'))
  paystack_deposit_credited_once reference id t wallet w new found positive c =
      let d = settled id t w.db in
      let w' : World = record w { db = d; session = d } in
      let run : handle_successful_paystack_deposit (some reference) w ≡ (ok tt, w') =
        handle_new reference t w new found ∙ credit_pending_run id t wallet w positive c in
      let later = find_by_reference-settled id reference t w.db c.listed found in
      let again : handle_successful_paystack_deposit (some reference) w' ≡ (ok tt, w') =
        handle_new reference (with_status TransactionStatus.success t) w'
          (find_response-settled id reference t w.db ∙ new) later
        ∙ credit_settled_run _ w' refl in
      rw run (refl, settled-Moved id t wallet w.db c.held, later, again)
