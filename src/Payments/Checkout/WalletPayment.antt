-- ===== src/Payments/Checkout/WalletPayment.antt =====
-- Paying for an order from the wallet.
use mathlib.Core.Path.{subst}
use nadbooks_backend.Prelude.{String, ◌≡◌, ◌≢◌, refl, sym, none, List, [], ◌∷◌, arith, inl, inr}
use nadbooks_backend.Prelude.Int.{ℤ}
use nadbooks_backend.Schema.{Db, Transaction, Order, wallet, of_int, Decimal, TransactionType}
use nadbooks_backend.Effects.{
  World, Env, Action, ok, err, tx, Result, transaction, record_not_found, ◌>>=◌, Error,
}
use nadbooks_backend.Effects.Laws.{
  Keeps, Throws, bind-Keeps, bind-Throws, Result-cases, bind-ok, bind-err,
}
use nadbooks_backend.Wallet.{debit, credit}
use nadbooks_backend.Auth.Crypto.{JwtPayload}
use nadbooks_backend.Payments.Gateway.{Gateway}
use nadbooks_backend.Payments.Refs.{generate_ref}
use nadbooks_backend.Payments.Orders.{mark_as_paid, items_of}
use nadbooks_backend.Payments.Transactions.{find_transaction, record_transaction}
use nadbooks_backend.Payments.Checkout.{
  CheckoutRequest, Checkout, Prepared, group_by_author, credit_authors, settle_transaction,
  settle_order, pay_authors, pay_from_wallet, pay_or_prepare, order_transaction, record_payment,
  prepare_order, prepare, order_for, create_order_checkout, finish,
}
use nadbooks_backend.Payments.Checkout.Uncommitted.{
  Committed, NoneAdded, order_for-NoneAdded, generate_ref-NoneAdded, record_transaction-new,
  record_transaction-Committed,
}

module _ ⦃env : Env⦄ (d : Db) where
  credit-Committed : (id : String) (amount : Decimal) → Keeps (Committed d) (credit id amount tx)
  unfolding credit
  credit-Committed id amount w h = ground arith

  debit-Committed : (id : String) (amount : Decimal) → Keeps (Committed d) (debit id amount tx)
  unfolding debit
  debit-Committed id amount w h = ground arith

  mark_as_paid-Committed : (id : String) → Keeps (Committed d) (mark_as_paid id tx)
  unfolding mark_as_paid
  mark_as_paid-Committed id w h = ground arith

  credit_authors-Committed :
      (groups : List (String × ℤ)) → Keeps (Committed d) (credit_authors groups)
  unfolding credit_authors
  credit_authors-Committed [] w h = h
  credit_authors-Committed ((author, income) ∷ groups) w h =
      bind-Keeps (Committed d) (credit author (of_int income) tx) (λ _. credit_authors groups)
        (credit-Committed author (of_int income)) (λ _. credit_authors-Committed groups) w h

  module _ (order : Order) (t : Transaction) (unlisted : find_transaction t.id d ≡ none) where
    absent : (w : World) → Committed d w → find_transaction t.id w.db ≡ none
    absent w h = subst (λ x. find_transaction t.id x ≡ none) (sym h) unlisted

    -- The row is not in the committed database, so an update through `this.db` finds nothing.
    settle_transaction-err :
        (w : World) → Committed d w → settle_transaction order t w ≡ (err record_not_found, w)
    unfolding settle_transaction
    settle_transaction-err w h = ground (arith, absent w h)

    settle_transaction-Throws : Throws (Committed d) (settle_transaction order t)
    settle_transaction-Throws w h a e = absurd (cc (settle_transaction-err w h))

    settle_transaction-Committed : Keeps (Committed d) (settle_transaction order t)
    settle_transaction-Committed w h = rw (settle_transaction-err w h) h

    settle_order-Throws : Throws (Committed d) (settle_order order t)
    unfolding settle_order
    settle_order-Throws =
        bind-Throws (Committed d) (mark_as_paid order.id tx) (λ _. settle_transaction order t)
          (mark_as_paid-Committed order.id) (λ _. settle_transaction-Throws)

    settle_order-Committed : Keeps (Committed d) (settle_order order t)
    unfolding settle_order
    settle_order-Committed =
        bind-Keeps (Committed d) (mark_as_paid order.id tx) (λ _. settle_transaction order t)
          (mark_as_paid-Committed order.id) (λ _. settle_transaction-Committed)

    credit_then-Throws :
        (groups : List (String × ℤ))
        → Throws (Committed d) (credit_authors groups >>= λ _. settle_order order t)
    credit_then-Throws groups =
        bind-Throws (Committed d) (credit_authors groups) (λ _. settle_order order t)
          (credit_authors-Committed groups) (λ _. settle_order-Throws)

    credit_then-Committed :
        (groups : List (String × ℤ))
        → Keeps (Committed d) (credit_authors groups >>= λ _. settle_order order t)
    credit_then-Committed groups =
        bind-Keeps (Committed d) (credit_authors groups) (λ _. settle_order order t)
          (credit_authors-Committed groups) (λ _. settle_order-Committed)

    pay_authors-Throws : Throws (Committed d) (pay_authors order t)
    unfolding pay_authors
    pay_authors-Throws w h = credit_then-Throws (group_by_author (items_of order.id w.session)) w h

    pay_authors-Committed : Keeps (Committed d) (pay_authors order t)
    unfolding pay_authors
    pay_authors-Committed w h =
        credit_then-Committed (group_by_author (items_of order.id w.session)) w h

    pay_from_wallet-Throws :
        (user_id : String) → Throws (Committed d) (pay_from_wallet user_id order t)
    unfolding pay_from_wallet
    pay_from_wallet-Throws user_id =
        bind-Throws (Committed d) (debit user_id (of_int order.total_amount) tx)
          (λ _. pay_authors order t) (debit-Committed user_id (of_int order.total_amount))
          (λ _. pay_authors-Throws)

    pay_from_wallet-Committed :
        (user_id : String) → Keeps (Committed d) (pay_from_wallet user_id order t)
    unfolding pay_from_wallet
    pay_from_wallet-Committed user_id =
        bind-Keeps (Committed d) (debit user_id (of_int order.total_amount) tx)
          (λ _. pay_authors order t) (debit-Committed user_id (of_int order.total_amount))
          (λ _. pay_authors-Committed)

  -- An action that throws, and leaves the committed database as it is.
  abbrev Fails : Action Prepared → World → Type 0
  Fails m w = ((a : Prepared) → (m w).0 ≢ ok a) × Committed d (m w).1

  record_payment-lem :
      (user_id : String) (order : Order) (reference : String) (w : World)
      → NoneAdded d w
      → Fails (record_payment wallet user_id order reference) w
  unfolding record_payment
  record_payment-lem user_id order reference w h =
      let m = record_transaction (order_transaction wallet order reference) tx in
      let f = pay_or_prepare wallet user_id order reference in
      elim (Result-cases (m w).0) [
        | inl (t, e) ↦
            let new = record_transaction-new d (order_transaction wallet order reference) w t h e in
            let kept =
              record_transaction-Committed d (order_transaction wallet order reference) w h in
            rw (bind-ok m f w t e) (
              pay_from_wallet-Throws order t new user_id (m w).1 kept,
              pay_from_wallet-Committed order t new user_id (m w).1 kept,
            )
        | inr (x, e) ↦ rw (bind-err m f w x e) (
          (λ a k. cc k),
          record_transaction-Committed d (order_transaction wallet order reference) w h,
        )
      ]

  bind-Fails :
      {A : Type 0} (m : Action A) (f : A → Action Prepared)
      → Keeps (NoneAdded d) m
      → ((a : A) (w : World) → NoneAdded d w → Fails (f a) w)
      → (w : World) → NoneAdded d w
      → Fails (m >>= f) w
  bind-Fails m f km ff w h = elim (Result-cases (m w).0) [
    | inl (a, e) ↦ rw (bind-ok m f w a e) (ff a (m w).1 (km w h))
    | inr (x, e) ↦ rw (bind-err m f w x e) ((λ a k. cc k), (km w h).0)
  ]

  module _ ⦃gateway : Gateway⦄ (user : JwtPayload) (dto : CheckoutRequest)
      (chosen : dto.payment_method ≡ wallet) where
    prepare_order-lem :
        (order : Order) (w : World) → NoneAdded d w → Fails (prepare_order user dto order) w
    unfolding prepare_order
    prepare_order-lem order =
        bind-Fails (generate_ref TransactionType.order user.sub)
          (record_payment dto.payment_method user.sub order)
          (generate_ref-NoneAdded d TransactionType.order user.sub)
          (λ reference.
            subst
              (λ method.
                (w : World)
                → NoneAdded d w
                → Fails (record_payment method user.sub order reference) w)
              (sym chosen) (record_payment-lem user.sub order reference))

    prepare-lem : (w : World) → NoneAdded d w → Fails (prepare user dto) w
    unfolding prepare
    prepare-lem =
        bind-Fails (order_for user.sub dto) (prepare_order user dto)
          (order_for-NoneAdded d user.sub dto) prepare_order-lem

transaction-err :
    {A : Type 0} (m : Action A) (w : World) (x : Error)
    → (m (record w { session = w.db })).0 ≡ err x
    → transaction m w ≡ (err x, (m (record w { session = w.db })).1)
transaction-err m w x e = rw (e, transaction)

transaction_then-err :
    {A B : Type 0} (m : Action A) (f : A → Action B) (w : World) (x : Error)
    → (m (record w { session = w.db })).0 ≡ err x
    → (transaction m >>= f) w ≡ (err x, (m (record w { session = w.db })).1)
transaction_then-err m f w x e =
    rw (bind-err (transaction m) f w x (rw (transaction-err m w x e)), transaction-err m w x e)

-- A checkout with WALLET as the payment method throws, and leaves the committed database as it was.
pub wallet_checkout_fails :
    ⦃env : Env⦄ ⦃gateway : Gateway⦄ (user : JwtPayload) (dto : CheckoutRequest) (w : World)
    → dto.payment_method ≡ wallet
    → ((a : Checkout) → (create_order_checkout user dto w).0 ≢ ok a)
      × ((create_order_checkout user dto w).1.db ≡ w.db)
unfolding create_order_checkout
wallet_checkout_fails user dto w chosen =
    let m = prepare user dto in
    let s : World = record w { session = w.db } in
    let f = finish user dto.payment_method in
    let (never, same) = prepare-lem w.db user dto chosen s (refl, refl) in
    elim (Result-cases (m s).0) [
      | inl (a, e) ↦ absurd (never a e)
      | inr (x, e) ↦
          let run = transaction_then-err m f w x e in
          ((λ a k. cc k), subst (λ (r : Result Checkout × World). r.1.db ≡ w.db) (sym run) same)
    ]
