-- ===== src/Payments/Withdrawal/Outcome.antt =====
-- What the outcome of a withdrawal does to its wallet.
use mathlib.Core.Path.{subst}
use nadbooks_backend.Prelude.{
  String, false, ◌≡◌, refl, ◌∙◌, some, arith, ap, find_first-update_self, eq_self, text_lt,
}
use nadbooks_backend.Prelude.Int.{ℤ, ◌+ℤ◌, pos, ◌<ℤ◌, ◌-ℤ◌, int_laws}
use nadbooks_backend.Schema.{Db, Transaction, TransactionStatus, paystack, Wallet}
use nadbooks_backend.Effects.{World, Env, ok}
use nadbooks_backend.Wallet.{find_wallet, set_wallet, add_balance, take_balance}
use nadbooks_backend.Wallet.Balance.{Moved, Moved-wallets, set_wallet-Moved, total, total-wallets}
use nadbooks_backend.Auth.Crypto.{Crypto, JwtPayload}
use nadbooks_backend.Payments.Gateway.{Gateway}
use nadbooks_backend.Payments.Transactions.{
  set_transaction, with_status, find_transaction, has_id, find_withdrawal,
}
use nadbooks_backend.Payments.Withdrawal.{
  WithdrawRequest, initiate_withdrawal, refund_pending, debit_pending,
  handle_failed_paystack_withdrawal, handle_successful_paystack_withdrawal,
}
use nadbooks_backend.Payments.Withdrawal.Start.{bank_withdrawal_debits_nothing}

-- The pending withdrawal of the wallet `id`.
pub record Pending (id : String) (t : Transaction) (wallet : Wallet) (d : Db) : Type 0 where
  pub waiting : t.status ≡ TransactionStatus.pending
  pub sender : t.sender_wallet_id ≡ some id
  pub positive : pos 0 <ℤ t.amount
  pub held : find_wallet id d ≡ some wallet
  pub listed : find_transaction t.id d ≡ some t

-- The database with the wallet changed and the transaction ended.
abbrev ended : TransactionStatus → String → (Wallet → Wallet) → Transaction → Db → Db
ended status id f t d = set_transaction t.id (with_status status) (set_wallet id f d)

ended-Moved :
    (status : TransactionStatus) (f : Wallet → Wallet)
    → ((x : Wallet) → (f x).id ≡ x.id)
    → (id : String) (delta : ℤ) (t : Transaction) (wallet : Wallet) (d : Db)
    → find_wallet id d ≡ some wallet
    → (f wallet).balance ≡ wallet.balance +ℤ delta
    → Moved id delta d (ended status id f t d)
unfolding set_transaction
ended-Moved status f same_id id delta t wallet d held moves =
    Moved-wallets id delta d (set_wallet id f d) (ended status id f t d)
      (set_wallet-Moved f same_id id delta d wallet held moves) refl

ended-listed :
    (status : TransactionStatus) (id : String) (f : Wallet → Wallet) (t : Transaction) (d : Db)
    → find_transaction t.id d ≡ some t
    → find_transaction t.id (ended status id f t d) ≡ some (with_status status t)
unfolding find_transaction set_transaction set_wallet
ended-listed status id f t d listed =
    find_first-update_self (has_id t.id) (with_status status) d.transactions t listed (eq_self t.id)

module _ ⦃env : Env⦄ where
  refund_run :
      (id : String) (t : Transaction) (wallet : Wallet) (w : World)
      → Pending id t wallet w.db
      → let d = ended TransactionStatus.failed id (add_balance t.amount) t w.db in
        refund_pending t w ≡ (ok tt, record w { db = d; session = d })
  unfolding refund_pending find_transaction find_wallet set_wallet set_transaction
  refund_run id t wallet w p = ground (arith, p.waiting, p.sender, p.positive, p.held, p.listed)

  debit_pending_run :
      (id : String) (t : Transaction) (wallet : Wallet) (w : World)
      → Pending id t wallet w.db
      → text_lt (env.value_of wallet.balance) (env.value_of t.amount) ≡ false
      → let d = ended TransactionStatus.success id (take_balance t.amount) t w.db in
        debit_pending t w ≡ (ok tt, record w { db = d; session = d })
  unfolding debit_pending find_transaction find_wallet set_wallet set_transaction
  debit_pending_run id t wallet w p enough =
      ground (arith, p.waiting, p.sender, p.positive, p.held, p.listed)

  failed_found :
      (reference : String) (t : Transaction) (w : World)
      → find_withdrawal (some reference) w.db ≡ some t
      → handle_failed_paystack_withdrawal (some reference) w ≡ refund_pending t w
  unfolding handle_failed_paystack_withdrawal
  failed_found reference t w found = ground (arith, found)

  successful_found :
      (reference : String) (t : Transaction) (w : World)
      → find_withdrawal (some reference) w.db ≡ some t
      → handle_successful_paystack_withdrawal (some reference) w ≡ debit_pending t w
  unfolding handle_successful_paystack_withdrawal
  successful_found reference t w found = ground (arith, found)

  -- The success of a pending bank withdrawal of a positive amount from a wallet that is there and
  -- passes the balance test of `debit` lowers that wallet's balance, and the total, by the amount,
  -- leaves the other wallets alone, and marks the transaction successful. The row is the one that
  -- its id finds.
  pub successful_withdrawal_debits :
      (reference id : String) (t : Transaction) (wallet : Wallet) (w : World)
      → find_withdrawal (some reference) w.db ≡ some t
      → Pending id t wallet w.db
      → text_lt (env.value_of wallet.balance) (env.value_of t.amount) ≡ false
      → let (r, w') = handle_successful_paystack_withdrawal (some reference) w in
        (r ≡ ok tt)
        × Moved id (pos 0 -ℤ t.amount) w.db w'.db
        × (find_transaction t.id w'.db ≡ some (with_status TransactionStatus.success t))
  successful_withdrawal_debits reference id t wallet w found p enough =
      let f = take_balance t.amount in
      rw (successful_found reference t w found ∙ debit_pending_run id t wallet w p enough) (
        refl,
        ended-Moved TransactionStatus.success f (λ x. refl) id (pos 0 -ℤ t.amount) t wallet w.db
            p.held (omega int_laws),
        ended-listed TransactionStatus.success id f t w.db p.listed,
      )

  -- The failure of a pending bank withdrawal of a positive amount from a wallet that is there
  -- raises that wallet's balance, and the total, by the amount, leaves the other wallets alone, and
  -- marks the transaction failed. The row is the one that its id finds.
  pub failed_withdrawal_credits :
      (reference id : String) (t : Transaction) (wallet : Wallet) (w : World)
      → find_withdrawal (some reference) w.db ≡ some t
      → Pending id t wallet w.db
      → let (r, w') = handle_failed_paystack_withdrawal (some reference) w in
        (r ≡ ok tt)
        × Moved id t.amount w.db w'.db
        × (find_transaction t.id w'.db ≡ some (with_status TransactionStatus.failed t))
  failed_withdrawal_credits reference id t wallet w found p =
      let f = add_balance t.amount in
      rw (failed_found reference t w found ∙ refund_run id t wallet w p) (
        refl,
        ended-Moved TransactionStatus.failed f (λ x. refl) id t.amount t wallet w.db p.held refl,
        ended-listed TransactionStatus.failed id f t w.db p.listed,
      )

  -- When a bank withdrawal has been started, the failure of a pending withdrawal of a positive
  -- amount from a wallet that is there leaves the wallets with that amount more than they held
  -- before the start: the failure is refunded, and nothing had been debited.
  pub failed_bank_withdrawal_creates_money :
      ⦃crypto_lib : Crypto⦄ ⦃gateway : Gateway⦄ (user : JwtPayload) (dto : WithdrawRequest)
      (reference id : String) (t : Transaction) (wallet : Wallet) (w w1 : World)
      → dto.method ≡ paystack
      → (initiate_withdrawal user dto w).1 ≡ w1
      → find_withdrawal (some reference) w1.db ≡ some t
      → Pending id t wallet w1.db
      → total (handle_failed_paystack_withdrawal (some reference) w1).1.db ≡ total w.db +ℤ t.amount
  failed_bank_withdrawal_creates_money user dto reference id t wallet w w1 bank started found p =
      let kept : w1.db.wallets ≡ w.db.wallets =
        subst (λ (v : World). v.db.wallets ≡ w.db.wallets) started
          (bank_withdrawal_debits_nothing user dto w bank) in
      let (answered, moved, listed) = failed_withdrawal_credits reference id t wallet w1 found p in
      moved.money ∙ ap (λ x. x +ℤ t.amount) (total-wallets w.db w1.db kept)
