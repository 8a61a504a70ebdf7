-- ===== src/Payments/Checkout/Uncommitted.antt =====
-- What a checkout does before it is paid: the committed database stays as it is, and the open
-- transaction adds no row to the payment transactions.
use mathlib.Core.Path.{subst}
use nadbooks_backend.Prelude.{
  length, String, ◌≡◌, ◌≢◌, refl, none, some, List, [], ◌∷◌, arith, find_first, inl, inr, not, eqb,
  find_many, sum_by, Option-cases,
}
use nadbooks_backend.Schema.{Db, Transaction, Order, Book, TransactionType}
use nadbooks_backend.Effects.{World, Env, ok, tx, plain, throw_if}
use nadbooks_backend.Effects.Laws.{Keeps, bind-Keeps, throw_if-Keeps}
use nadbooks_backend.Payments.Gateway.{Gateway}
use nadbooks_backend.Payments.Refs.{generate_ref}
use nadbooks_backend.Payments.Orders.{
  create_order, create_items, insert_order, update_order, set_order, fill_order, check_books,
  price_order, with_total, book_price, is_listed,
}
use nadbooks_backend.Payments.Transactions.{find_transaction, record_transaction, clashes, has_id}
use nadbooks_backend.Payments.Checkout.{CheckoutRequest, order_for, existing_order, new_order}

-- A new row clashes with none, so its id is new.
pub find_transaction-new :
    (row : Transaction) (rows : List Transaction)
    → find_first (clashes row) rows ≡ none
    → find_first (has_id row.id) rows ≡ none
unfolding find_first
find_transaction-new row [] h = refl
find_transaction-new row (t ∷ rows) h = ground (arith, find_transaction-new row rows)

module _ ⦃env : Env⦄ (d : Db) where
  -- The committed database is `d`.
  abbrev pub Committed : World → Type 0
  Committed w = w.db ≡ d

  -- It is, and the transaction has not added a row to the transactions.
  abbrev pub NoneAdded : World → Type 0
  NoneAdded w = (w.db ≡ d) × (w.session.transactions ≡ d.transactions)

  -- What `order_for` and `generate_ref` leave as it was.
  create_items-NoneAdded :
      (id : String) (books : List Book) → Keeps NoneAdded (create_items id books tx)
  unfolding create_items
  create_items-NoneAdded id [] w h = h
  create_items-NoneAdded id (book ∷ books) w h = create_items-NoneAdded id books _ h

  insert_order-NoneAdded : (user_id : String) → Keeps NoneAdded (insert_order user_id tx)
  unfolding insert_order
  insert_order-NoneAdded user_id w h = ground arith

  update_order-NoneAdded :
      (id : String) (f : Order → Order) → Keeps NoneAdded (update_order id f tx)
  unfolding update_order set_order
  update_order-NoneAdded id f w h = ground arith

  fill_order-NoneAdded :
      (books : List Book) (order : Order) → Keeps NoneAdded (fill_order books tx order)
  unfolding fill_order
  fill_order-NoneAdded books order =
      let f = with_total (sum_by book_price books) in
      bind-Keeps NoneAdded (create_items order.id books tx) (λ done. update_order order.id f tx)
        (create_items-NoneAdded order.id books) (λ done. update_order-NoneAdded order.id f)

  check_books-NoneAdded :
      (ids : List String) (order : Order) (books : List Book)
      → Keeps NoneAdded (check_books ids tx order books)
  unfolding check_books
  check_books-NoneAdded ids order books w h =
      let b = not (eqb (length books) (length ids)) in
      bind-Keeps NoneAdded (throw_if b (plain "Some books do not exist"))
        (λ done. fill_order books tx order)
        (throw_if-Keeps NoneAdded b (plain "Some books do not exist"))
        (λ done. fill_order-NoneAdded books order) w h

  price_order-NoneAdded :
      (ids : List String) (order : Order) → Keeps NoneAdded (price_order ids tx order)
  unfolding price_order
  price_order-NoneAdded ids order w h =
      check_books-NoneAdded ids order (find_many (is_listed ids) w.session.books) w h

  create_order-NoneAdded :
      (user_id : String) (ids : List String) → Keeps NoneAdded (create_order user_id ids tx)
  unfolding create_order
  create_order-NoneAdded user_id ids =
      bind-Keeps NoneAdded (insert_order user_id tx) (price_order ids tx)
        (insert_order-NoneAdded user_id) (price_order-NoneAdded ids)

  existing_order-NoneAdded : (user_id id : String) → Keeps NoneAdded (existing_order user_id id)
  unfolding existing_order
  existing_order-NoneAdded user_id id w h = ground arith

  new_order-NoneAdded :
      (user_id : String) (ids : List String) → Keeps NoneAdded (new_order user_id ids)
  unfolding new_order
  new_order-NoneAdded user_id [] w h = h
  new_order-NoneAdded user_id (id ∷ ids) w h = create_order-NoneAdded user_id (id ∷ ids) w h

  pub order_for-NoneAdded :
      (user_id : String) (dto : CheckoutRequest) → Keeps NoneAdded (order_for user_id dto)
  unfolding order_for
  order_for-NoneAdded user_id dto w h = ground (
    arith,
    new_order-NoneAdded user_id dto.book_ids w h,
    λ (id : String). existing_order-NoneAdded user_id id w h,
  )

  pub generate_ref-NoneAdded :
      ⦃gateway : Gateway⦄ (type : TransactionType) (user_id : String)
      → Keeps NoneAdded (generate_ref type user_id)
  unfolding generate_ref
  generate_ref-NoneAdded type user_id w h = h

  record_transaction_free :
      (given : Transaction) (w : World) (t : Transaction)
      → find_first (clashes (record given { id = env.random w.step })) w.session.transactions ≡ none
      → (record_transaction given tx w).0 ≡ ok t
      → record given { id = env.random w.step } ≡ t
  unfolding record_transaction
  record_transaction_free given w t free e = ground arith

  record_transaction_taken :
      (given : Transaction) (w : World) (t x : Transaction)
      → find_first (clashes (record given { id = env.random w.step })) w.session.transactions
        ≡ some x
      → (record_transaction given tx w).0 ≢ ok t
  unfolding record_transaction
  record_transaction_taken given w t x found e = ground arith

  -- The transaction that `record_transaction` returns is not in the committed database.
  pub record_transaction-new :
      (given : Transaction) (w : World) (t : Transaction)
      → NoneAdded w
      → (record_transaction given tx w).0 ≡ ok t
      → find_transaction t.id d ≡ none
  unfolding record_transaction find_transaction
  record_transaction-new given w t h e =
      let row : Transaction = record given { id = env.random w.step } in
      elim (Option-cases (find_first (clashes row) w.session.transactions)) [
        | inl free ↦
            subst (λ (x : Transaction). find_first (has_id x.id) d.transactions ≡ none)
              (record_transaction_free given w t free e)
              (find_transaction-new row d.transactions (cc (free, h.1)))
        | inr (x, found) ↦ absurd (record_transaction_taken given w t x found e)
      ]

  pub record_transaction-Committed :
      (given : Transaction) (w : World) → NoneAdded w → Committed (record_transaction given tx w).1
  unfolding record_transaction
  record_transaction-Committed given w h = ground arith
