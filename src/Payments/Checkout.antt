-- ===== src/Payments/Checkout.antt =====
-- src/payments/order-payment/order-payment.service.ts
pub mod Uncommitted
pub mod WalletPayment
use nadbooks_backend.Prelude.{
  String, Bool, true, false, ◌==◌, not, Option, none, some, List, [], ◌∷◌, if◌then◌else◌,
}
use nadbooks_backend.Prelude.Int.{ℤ, pos, ◌+ℤ◌}
use nadbooks_backend.Schema.{
  Decimal, Metadata, Order, OrderBook, OrderStatus, Transaction, TransactionType, TransactionStatus,
  PaymentMethod, paystack, crypto, wallet, of_int,
}
use nadbooks_backend.Effects.{
  World, Env, Error, Action, Void, Client, main, tx, plain, pure, throw, gets, ◌>>=◌, ◌>>◌,
  throw_if, transaction, catch,
}
use nadbooks_backend.Wallet.{debit, credit}
use nadbooks_backend.Auth.Crypto.{JwtPayload}
use nadbooks_backend.Payments.Gateway.{Gateway, DepositResult}
use nadbooks_backend.Payments.Refs.{generate_ref}
use nadbooks_backend.Payments.Orders.{get_order_by_id, create_order, mark_as_paid, items_of}
use nadbooks_backend.Payments.Transactions.{record_transaction, update_transaction, with_status}
use nadbooks_backend.Payments.Deposit.Providers.{initiate_paystack, initiate_crypto}

-- `CreateCheckoutDto`; an empty list of books is as good as none.
pub record CheckoutRequest : Type 0 where
  pub book_ids : List String
  pub order_id : Option String
  pub payment_method : PaymentMethod

-- What the transaction returns: a settled payment, or what the external call needs.
pub data Prepared : Type 0 where
  wallet_success : String → String → Prepared
  external_init : Order → Transaction → String → Prepared

-- What the checkout returns: the paid order and its transaction, or how to pay.
pub data Checkout : Type 0 where
  paid : String → String → Checkout
  to_pay : DepositResult → Checkout

abbrev pub status_text : OrderStatus → String
status_text OrderStatus.pending = "PENDING"
status_text OrderStatus.paid = "PAID"
status_text OrderStatus.failed = "FAILED"
status_text OrderStatus.cancelled = "CANCELLED"
status_text OrderStatus.completed = "COMPLETED"

-- `groupBy authorId` with the sum of the prices.
abbrev pub add_price : String → ℤ → List (String × ℤ) → List (String × ℤ)
add_price author price [] = (author, price) ∷ []
add_price author price ((a, sum) ∷ groups) =
    if a == author then (a, sum +ℤ price) ∷ groups else (a, sum) ∷ add_price author price groups

unfoldable pub group_by_author : List OrderBook → List (String × ℤ)
group_by_author [] = []
group_by_author (item ∷ items) = add_price item.author_id item.price (group_by_author items)

abbrev pub order_metadata : String → Order → Metadata
order_metadata user_id order = ("userId", user_id) ∷ ("orderId", order.id) ∷ ("type", "ORDER") ∷ []

module _ ⦃env : Env⦄ where
  -- The order that is paid for. `order.status === TransactionStatus.SUCCESS` compares with a text
  -- that no order status has.
  unfoldable pub existing_order : String → String → Action Order
  unfolding get_order_by_id
  existing_order user_id order_id = do
    order ← get_order_by_id order_id
    throw_if (not (order.user_id == user_id)) (plain "Order not found")
    throw_if (status_text order.status == "SUCCESS") (plain "Order is already paid")
    pure order

  unfoldable pub new_order : String → List String → Action Order
  unfolding create_order
  new_order user_id [] = throw (plain "Invalid request: Provide either orderId or bookIds")
  new_order user_id (id ∷ ids) = create_order user_id (id ∷ ids) tx

  unfoldable pub order_for : String → CheckoutRequest → Action Order
  unfolding existing_order new_order
  order_for user_id dto = elim dto.order_id [
    | some id ↦ if id == "" then new_order user_id dto.book_ids else existing_order user_id id
    | none ↦ new_order user_id dto.book_ids
  ]

  unfoldable pub credit_authors : List (String × ℤ) → Action Void
  unfolding credit
  credit_authors [] = pure tt
  credit_authors ((author, income) ∷ groups) = do
    credit author (of_int income) tx
    credit_authors groups

  -- The update that ends a wallet payment. It is not given the `tx`.
  unfoldable pub settle_transaction : Order → Transaction → Action Prepared
  unfolding update_transaction
  settle_transaction order t =
      update_transaction t.id (with_status TransactionStatus.success) main >>= λ updated.
      pure (wallet_success order.id t.id)

  unfoldable pub settle_order : Order → Transaction → Action Prepared
  unfolding mark_as_paid settle_transaction
  settle_order order t = mark_as_paid order.id tx >>= λ updated. settle_transaction order t

  unfoldable pub pay_authors : Order → Transaction → Action Prepared
  unfolding credit_authors settle_order
  pay_authors order t = gets (λ w. group_by_author (items_of order.id w.session)) >>= λ grouped.
      credit_authors grouped >>= λ done. settle_order order t

  -- The wallet payment, inside the transaction.
  unfoldable pub pay_from_wallet : String → Order → Transaction → Action Prepared
  unfolding debit pay_authors
  pay_from_wallet user_id order t =
      debit user_id (of_int order.total_amount) tx >>= λ updated. pay_authors order t

  unfoldable pub pay_or_prepare :
      PaymentMethod → String → Order → String → Transaction → Action Prepared
  unfolding pay_from_wallet
  pay_or_prepare wallet user_id order reference t = pay_from_wallet user_id order t
  pay_or_prepare _ user_id order reference t = pure (external_init order t reference)

  -- The row that the checkout records for an order.
  abbrev pub order_transaction : PaymentMethod → Order → String → Transaction
  order_transaction method order reference = record {
    id = "";
    type = TransactionType.order;
    amount = of_int order.total_amount;
    payment_method = method;
    sender_wallet_id = none;
    recipient_wallet_id = none;
    reference = reference;
    hash = none;
    status = TransactionStatus.pending;
    metadata = none;
    order_id = some order.id;
  }

  unfoldable pub record_payment : PaymentMethod → String → Order → String → Action Prepared
  unfolding record_transaction pay_or_prepare
  record_payment method user_id order reference =
      record_transaction (order_transaction method order reference) tx
      >>= pay_or_prepare method user_id order reference

module _ ⦃env : Env⦄ ⦃gateway : Gateway⦄ where
  unfoldable pub prepare_order : JwtPayload → CheckoutRequest → Order → Action Prepared
  unfolding generate_ref record_payment
  prepare_order user dto order =
      generate_ref TransactionType.order user.sub
      >>= record_payment dto.payment_method user.sub order

  -- Step 1, the body of the transaction.
  unfoldable pub prepare : JwtPayload → CheckoutRequest → Action Prepared
  unfolding order_for prepare_order
  prepare user dto = order_for user.sub dto >>= prepare_order user dto

  -- A failed call to Paystack marks the transaction failed and throws on.
  unfoldable pub abandon : Transaction → Error → Action DepositResult
  unfolding update_transaction
  abandon t e = do update_transaction t.id (with_status TransactionStatus.failed) main; throw e

  unfoldable pub start_external :
      JwtPayload → PaymentMethod → Order → Transaction → String → Action Checkout
  unfolding initiate_paystack initiate_crypto abandon
  start_external user paystack order t reference = do
    started ←
        catch
          (initiate_paystack (record {
            amount = of_int order.total_amount;
            email = user.email;
            reference = reference;
            metadata = order_metadata user.sub order;
          }))
          (abandon t)
    pure (to_pay started)
  start_external user crypto order t reference = do
    started ← initiate_crypto reference (of_int order.total_amount)
    pure (to_pay started)
  start_external user wallet order t reference = throw (plain "Unsupported payment method")

  unfoldable pub finish : JwtPayload → PaymentMethod → Prepared → Action Checkout
  unfolding start_external
  finish user method (wallet_success order_id transaction_id) = pure (paid order_id transaction_id)
  finish user method (external_init order t reference) =
      start_external user method order t reference

  unfoldable pub create_order_checkout : JwtPayload → CheckoutRequest → Action Checkout
  unfolding prepare finish
  create_order_checkout user dto = do
    prepared ← transaction (prepare user dto)
    finish user dto.payment_method prepared
