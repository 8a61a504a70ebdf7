-- ===== src/Payments/Deposit/Chain.antt =====
-- What a verified payment on the chain credits.
use mathlib.Core.Path.{subst}
use nadbooks_backend.Prelude.{
  String, ◌≡◌, ◌≢◌, refl, sym, ◌∙◌, Option, none, some, arith, ap, eq_ne, eq_self,
  find_first-update_self, find_first-update_both, find_first-fits,
}
use nadbooks_backend.Prelude.Int.{pos, ◌<ℤ◌}
use nadbooks_backend.Schema.{Db, Decimal, Transaction, TransactionStatus, crypto, Wallet, Metadata}
use nadbooks_backend.Effects.{World, Env, ok, Result}
use nadbooks_backend.Effects.Laws.{bind-ok, Keeps, bind-Keeps}
use nadbooks_backend.Wallet.{find_wallet, set_wallet, add_balance}
use nadbooks_backend.Wallet.Balance.{Moved, Moved-wallets, set_wallet-Moved}
use nadbooks_backend.PriceFeed.{
  Markets, Converted, convert_mon_to_books, get_mon_usdt_price, get_usd_ngn_rate, convert_at,
  convert_priced,
}
use nadbooks_backend.Payments.Gateway.{Gateway, VerifyInput, Verification, PaymentStatus}
use nadbooks_backend.Payments.Transactions.{
  find_transaction, find_by_hash, set_transaction, has_id, has_hash,
}
use nadbooks_backend.Payments.Deposit.Providers.{verify_crypto}
use nadbooks_backend.Payments.Deposit.{
  verify_deposit, verify_found, verify_by_hash, apply_verification, settle_pending, settle,
  with_context, sender_address,
}
use nadbooks_backend.Payments.Deposit.Idle.{verify_crypto-Same, verify_settled_changes_nothing}
use nadbooks_backend.Payments.Deposit.Settlement.{Creditable}

-- The database after the deposit was credited with `amount` and settled.
abbrev credited : String → Decimal → Metadata → Transaction → Db → Db
credited id amount context t d =
    set_transaction t.id (with_context context) (set_wallet id (add_balance amount) d)

module _ ⦃env : Env⦄ ⦃gateway : Gateway⦄ ⦃markets : Markets⦄ where
  -- The prices are read before anything is written, so that the conversion leaves the database.
  settle_run :
      (id mon : String) (v : Verification) (converted : Converted) (t : Transaction)
      (wallet : Wallet) (w w1 : World)
      → v.decoded_amount ≡ some mon
      → convert_mon_to_books (gateway.decimal_of mon) w ≡ (ok converted, w1)
      → pos 0 <ℤ converted.books_amount
      → Creditable id t wallet w1.db
      → settle crypto v t w
        ≡ (ok tt, record w1 { db = credited id converted.books_amount converted.context t w1.db })
  unfolding settle find_transaction set_wallet
  settle_run id mon v converted t wallet w w1 shown run positive c =
      ground (arith, c.recipient, c.held, c.listed)

  abbrev Same : Db → World → Type 0
  Same d w = w.db ≡ d

  get_mon_usdt_price-Same : (d : Db) → Keeps (Same d) get_mon_usdt_price
  unfolding get_mon_usdt_price
  get_mon_usdt_price-Same d w h = ground arith

  get_usd_ngn_rate-Same : (d : Db) → Keeps (Same d) get_usd_ngn_rate
  unfolding get_usd_ngn_rate
  get_usd_ngn_rate-Same d w h = ground arith

  convert_at-Same : (d : Db) (a p r : Decimal) → Keeps (Same d) (convert_at a p r)
  unfolding convert_at
  convert_at-Same d a p r w h = ground arith

  convert_mon_to_books-Same : (d : Db) (a : Decimal) → Keeps (Same d) (convert_mon_to_books a)
  unfolding convert_mon_to_books convert_priced
  convert_mon_to_books-Same d a =
      bind-Keeps (Same d) get_mon_usdt_price (convert_priced a) (get_mon_usdt_price-Same d) λ price.
        bind-Keeps (Same d) get_usd_ngn_rate (convert_at a price) (get_usd_ngn_rate-Same d)
          (convert_at-Same d a price)

  -- A request for a pending deposit, with what the provider and the price feed answer to it.
  pub record Answered (input : VerifyInput) (id mon : String) (t : Transaction) (wallet : Wallet)
      (v : Verification) (c : Converted) (w w1 w2 : World) : Type 0 where
    pub hash : String
    pub given : input.hash ≡ some hash
    pub filled : hash ≢ ""
    pub found : find_by_hash input.hash w.db ≡ some t
    pub verified :
        verify_crypto
          (record input {
            transfered_amount = some t.amount;
            buyer_address = sender_address t.metadata;
          })
          w
        ≡ (ok v, w1)
    pub succeeded : v.status ≡ PaymentStatus.success
    pub shown : v.decoded_amount ≡ some mon
    pub converted : convert_mon_to_books (gateway.decimal_of mon) w1 ≡ (ok c, w2)
    pub positive : pos 0 <ℤ c.books_amount
    pub creditable : Creditable id t wallet w.db

  apply_run :
      (input : VerifyInput) (v : Verification) (t : Transaction) (w w2 : World)
      → find_by_hash input.hash w.db ≡ some t
      → v.status ≡ PaymentStatus.success
      → t.status ≡ TransactionStatus.pending
      → settle crypto v t w ≡ (ok tt, w2)
      → apply_verification crypto input v w ≡ (ok v, w2)
  unfolding apply_verification settle_pending
  apply_run input v t w w2 found succeeded waiting done = ground arith

  verify_found_start :
      (input : VerifyInput) (t : Transaction) (hash : String) (w : World)
      → input.hash ≡ some hash
      → hash ≢ ""
      → find_by_hash input.hash w.db ≡ some t
      → verify_deposit crypto input w ≡ verify_found input t w
  unfolding verify_deposit verify_by_hash
  verify_found_start input t hash w given filled found = ground (arith, eq_ne hash "")

  credited-Moved :
      (id : String) (amount : Decimal) (context : Metadata) (t : Transaction) (wallet : Wallet)
      (d : Db)
      → find_wallet id d ≡ some wallet
      → Moved id amount d (credited id amount context t d)
  unfolding set_transaction
  credited-Moved id amount context t wallet d held =
      Moved-wallets id amount d (set_wallet id (add_balance amount) d)
        (credited id amount context t d)
        (set_wallet-Moved (add_balance amount) (λ x. refl) id amount d wallet held refl) refl

  credited-listed :
      (id : String) (amount : Decimal) (context : Metadata) (t : Transaction) (d : Db)
      → find_transaction t.id d ≡ some t
      → find_transaction t.id (credited id amount context t d) ≡ some (with_context context t)
  unfolding find_transaction set_transaction set_wallet
  credited-listed id amount context t d listed =
      find_first-update_self (has_id t.id) (with_context context) d.transactions t listed
        (eq_self t.id)

  has_hash-context :
      (hash : Option String) (context : Metadata) (t : Transaction)
      → has_hash hash (with_context context t) ≡ has_hash hash t
  has_hash-context none context t = refl
  has_hash-context (some hash) context t = refl

  credited-found :
      (id : String) (amount : Decimal) (context : Metadata) (hash : Option String) (t : Transaction)
      (d : Db)
      → find_transaction t.id d ≡ some t
      → find_by_hash hash d ≡ some t
      → find_by_hash hash (credited id amount context t d) ≡ some (with_context context t)
  unfolding find_transaction find_by_hash set_transaction set_wallet
  credited-found id amount context hash t d listed found =
      find_first-update_both (has_id t.id) (has_hash hash) (with_context context) d.transactions t
        listed found
        (has_hash-context hash context t ∙ find_first-fits (has_hash hash) d.transactions t found)

  module _ (input : VerifyInput) (id mon : String) (t : Transaction) (wallet : Wallet)
      (v : Verification) (c : Converted) (w w1 w2 : World)
      (a : Answered input id mon t wallet v c w w1 w2) where
    abbrev asked : VerifyInput
    asked = record input {
      transfered_amount = some t.amount;
      buyer_address = sender_address t.metadata;
    }

    kept1 : w1.db ≡ w.db
    kept1 =
        subst (λ (r : Result Verification × World). r.1.db ≡ w.db) a.verified
          (verify_crypto-Same w.db asked w refl)

    kept2 : w2.db ≡ w.db
    kept2 =
        subst (λ (r : Result Converted × World). r.1.db ≡ w.db) a.converted
          (convert_mon_to_books-Same w.db (gateway.decimal_of mon) w1 kept1)

    abbrev after : World
    after = record w2 { db = credited id c.books_amount c.context t w2.db }

    verify_run : verify_deposit crypto input w ≡ (ok v, after)
    unfolding verify_found
    verify_run =
        verify_found_start input t a.hash w a.given a.filled a.found
        ∙ bind-ok (verify_crypto asked) (apply_verification crypto asked) w v
            (ap (λ (r : Result Verification × World). r.0) a.verified)
        ∙ ap (λ (r : Result Verification × World). apply_verification crypto asked v r.1) a.verified
        ∙ apply_run asked v t w1 after
            (subst (λ (d : Db). find_by_hash input.hash d ≡ some t) (sym kept1) a.found) a.succeeded
            a.creditable.waiting
            (settle_run id mon v c t wallet w1 w2 a.shown a.converted a.positive
              (subst (λ (d : Db). Creditable id t wallet d) (sym kept2) a.creditable))

    -- When the provider, asked with the recorded amount and sender, reports a success for the
    -- hash, which is not empty, of a pending deposit to a wallet that is there, and the amount that
    -- it decoded converts to a positive amount of BOOKS, verifying the deposit raises that wallet's
    -- balance, and the total, by the converted amount, whatever amount the deposit records, leaves
    -- the other wallets alone and settles the transaction; verifying it again changes nothing. The
    -- row is the one that its id finds.
    pub chain_deposit_credited_once :
        ((verify_deposit crypto input w).0 ≡ ok v)
        × Moved id c.books_amount w.db (verify_deposit crypto input w).1.db
        × (find_transaction t.id (verify_deposit crypto input w).1.db
            ≡ some (with_context c.context t))
        × ((verify_deposit crypto input (verify_deposit crypto input w).1).1.db
            ≡ (verify_deposit crypto input w).1.db)
    chain_deposit_credited_once = rw verify_run (
      refl,
      subst (λ (d : Db). Moved id c.books_amount d after.db) kept2
          (credited-Moved id c.books_amount c.context t wallet w2.db
            (subst (λ (d : Db). find_wallet id d ≡ some wallet) (sym kept2) a.creditable.held)),
      credited-listed id c.books_amount c.context t w2.db
          (subst (λ (d : Db). find_transaction t.id d ≡ some t) (sym kept2) a.creditable.listed),
      verify_settled_changes_nothing input (with_context c.context t) after
          (credited-found id c.books_amount c.context input.hash t w2.db
            (subst (λ (d : Db). find_transaction t.id d ≡ some t) (sym kept2) a.creditable.listed)
            (subst (λ (d : Db). find_by_hash input.hash d ≡ some t) (sym kept2) a.found))
          refl,
    )
