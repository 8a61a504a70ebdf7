-- ===== src/Payments/Orders/Total.antt =====
-- What a new order costs.
use mathlib.Core.Path.{subst}
use nadbooks_backend.Prelude.{
  length, suc, String, ◌≡◌, refl, sym, ◌∙◌, ap, some, List, [], ◌∷◌, arith, find_first, find_many,
  sum_by, eq_self, find_first-update_self, find_first-fits, inl, inr, not, eqb, Bool-cases, map,
}
use nadbooks_backend.Prelude.Int.{ℤ, pos, ◌+ℤ◌, int_laws}
use nadbooks_backend.Schema.{Db, Book, Order, OrderBook}
use nadbooks_backend.Effects.{World, Env, ok, main, tx, Client, read, write, Result}
use nadbooks_backend.Effects.Laws.{Result-cases, bind-ok, bind-err}
use nadbooks_backend.Wallet.Balance.{read-write}
use nadbooks_backend.Payments.Orders.{
  create_items, create_order, insert_order, price_order, check_books, fill_order, update_order,
  set_order, items_of, find_order, has_id, with_total, book_price, item_price, is_listed,
}

swap : (a b c : ℤ) → a +ℤ (b +ℤ c) ≡ b +ℤ a +ℤ c
swap a b c = omega int_laws

-- What an item says of its book, and the book of itself.
abbrev pub sold : OrderBook → String × ℤ × String
sold item = (item.book_id, item.price, item.author_id)

abbrev pub offered : Book → String × ℤ × String
offered book = (book.id, book.price, book.author_id)

-- The first list from its end, then the second.
abbrev pub onto : {A : Type 0} → List A → List A → List A
onto [] ys = ys
onto (x ∷ xs) ys = onto xs (x ∷ ys)

module _ ⦃env : Env⦄ (id : String) where
  -- The prices of an order's items.
  abbrev item_sum : Db → ℤ
  item_sum d = sum_by item_price (items_of id d)

  create_items_ok :
      (books : List Book) (c : Client) (w : World) → (create_items id books c w).0 ≡ ok tt
  unfolding create_items
  create_items_ok [] c w = refl
  create_items_ok (book ∷ books) c w = create_items_ok books c _

  create_items-orders :
      (books : List Book) (c : Client) (w : World)
      → (read c (create_items id books c w).1).orders ≡ (read c w).orders
  unfolding create_items
  create_items-orders [] c w = refl
  create_items-orders (book ∷ books) main w = create_items-orders books main _
  create_items-orders (book ∷ books) tx w = create_items-orders books tx _

  item_sum-add :
      (item : OrderBook) (d : Db)
      → item.order_id ≡ id
      → item_sum (record d { order_books = item ∷ d.order_books }) ≡ item.price +ℤ item_sum d
  unfolding items_of find_many sum_by
  item_sum-add item d e = rw (e, eq_self id)

  abbrev row : Book → World → OrderBook
  row book w = record {
    id = env.random w.step;
    order_id = id;
    book_id = book.id;
    price = book.price;
    author_id = book.author_id;
  }

  create_items-sum :
      (books : List Book) (c : Client) (w : World)
      → item_sum (read c (create_items id books c w).1)
        ≡ sum_by book_price books +ℤ item_sum (read c w)
  unfolding create_items sum_by
  create_items-sum [] c w = omega int_laws
  create_items-sum (book ∷ books) main w =
      let item = row book w in
      let d : Db = record w.db { order_books = item ∷ w.db.order_books } in
      create_items-sum books main (record w { db = d; step = suc w.step })
      ∙ ap (λ x. sum_by book_price books +ℤ x) (item_sum-add item w.db refl)
      ∙ swap (sum_by book_price books) book.price (item_sum w.db)
  create_items-sum (book ∷ books) tx w =
      let item = row book w in
      let d : Db = record w.session { order_books = item ∷ w.session.order_books } in
      create_items-sum books tx (record w { session = d; step = suc w.step })
      ∙ ap (λ x. sum_by book_price books +ℤ x) (item_sum-add item w.session refl)
      ∙ swap (sum_by book_price books) book.price (item_sum w.session)

  items-add :
      (item : OrderBook) (d : Db)
      → item.order_id ≡ id
      → map sold (items_of id (record d { order_books = item ∷ d.order_books }))
        ≡ sold item ∷ map sold (items_of id d)
  unfolding items_of find_many
  items-add item d e = rw (e, eq_self id) refl

  -- The items are added one in front of the other.
  create_items-items :
      (books : List Book) (c : Client) (w : World)
      → map sold (items_of id (read c (create_items id books c w).1))
        ≡ onto (map offered books) (map sold (items_of id (read c w)))
  unfolding create_items
  create_items-items [] c w = refl
  create_items-items (book ∷ books) main w =
      let item = row book w in
      let d : Db = record w.db { order_books = item ∷ w.db.order_books } in
      create_items-items books main (record w { db = d; step = suc w.step })
      ∙ ap (onto (map offered books)) (items-add item w.db refl)
  create_items-items (book ∷ books) tx w =
      let item = row book w in
      let d : Db = record w.session { order_books = item ∷ w.session.order_books } in
      create_items-items books tx (record w { session = d; step = suc w.step })
      ∙ ap (onto (map offered books)) (items-add item w.session refl)

  items-set : (f : Order → Order) (d : Db) → items_of id (set_order id f d) ≡ items_of id d
  unfolding items_of set_order
  items-set f d = refl

  update_order_run :
      (f : Order → Order) (c : Client) (w : World) (order : Order)
      → find_order id (read c w) ≡ some order
      → update_order id f c w ≡ (ok (f order), write c (set_order id f (read c w)) w)
  unfolding update_order
  update_order_run f c w order found = ground arith

  item_sum-set : (f : Order → Order) (d : Db) → item_sum (set_order id f d) ≡ item_sum d
  unfolding items_of set_order
  item_sum-set f d = refl

  find_order-set :
      (f : Order → Order) (d : Db) (order : Order)
      → (f order).id ≡ order.id
      → find_order id d ≡ some order
      → find_order id (set_order id f d) ≡ some (f order)
  unfolding find_order set_order
  find_order-set f d order same found =
      find_first-update_self (has_id id) f d.orders order found
        (rw same (find_first-fits (has_id id) d.orders order found))

  find_order-same : (d d' : Db) → d'.orders ≡ d.orders → find_order id d' ≡ find_order id d
  unfolding find_order
  find_order-same d d' e = rw e

  -- An order on record with an item for each of the books, at its price, whose total is the sum of
  -- the prices of its items.
  pub record Priced (books : List Book) (order : Order) (d : Db) : Type 0 where
    pub recorded : find_order id d ≡ some order
    pub itemized : map sold (items_of id d) ≡ onto (map offered books) []
    pub total : order.total_amount ≡ item_sum d

add_zero : (a b : ℤ) → b ≡ pos 0 → a +ℤ b ≡ a
add_zero a b e = rw e (omega int_laws)

sum_empty : (items : List OrderBook) → items ≡ [] → sum_by item_price items ≡ pos 0
unfolding sum_by
sum_empty items e = rw e

module _ ⦃env : Env⦄ where
  -- It returns an order with its total, which is recorded with the items.
  abbrev Fills : String → List Book → Client → Result Order × World → Type 0
  Fills id books c r =
      (o : Order) × (w' : World) × (r ≡ (ok o, w')) × (o.id ≡ id) × Priced id books o (read c w')

  fill_order-Priced :
      (books : List Book) (c : Client) (w : World) (order : Order)
      → find_order order.id (read c w) ≡ some order
      → items_of order.id (read c w) ≡ []
      → Fills order.id books c (fill_order books c order w)
  unfolding fill_order
  fill_order-Priced books c w order found empty =
      let m = create_items order.id books c in
      let f = with_total (sum_by book_price books) in
      let w1 = (m w).1 in
      let d : Db = set_order order.id f (read c w1) in
      let found1 : find_order order.id (read c w1) ≡ some order =
        find_order-same order.id (read c w) (read c w1) (create_items-orders order.id books c w)
        ∙ found in
      let run =
        bind-ok m (λ done. update_order order.id f c) w tt (create_items_ok order.id books c w)
        ∙ update_order_run order.id f c w1 order found1 in
      let sum : item_sum order.id (read c w1) ≡ sum_by book_price books =
        create_items-sum order.id books c w
        ∙ add_zero (sum_by book_price books) (item_sum order.id (read c w))
            (sum_empty (items_of order.id (read c w)) empty) in
      let items : map sold (items_of order.id (read c w1)) ≡ onto (map offered books) [] =
        create_items-items order.id books c w
        ∙ ap (λ l. onto (map offered books) (map sold l)) empty in
      (
        f order,
        write c d w1,
        run,
        refl,
        record {
          recorded =
              rw (read-write c d w1) (find_order-set order.id f (read c w1) order refl found1);
          itemized =
              rw (read-write c d w1) (ap (map sold) (items-set order.id f (read c w1)) ∙ items);
          total = sym (rw (read-write c d w1) (item_sum-set order.id f (read c w1) ∙ sum));
        },
      )

  check_books_ok :
      (ids : List String) (books : List Book) (c : Client) (w w' : World) (order o : Order)
      → check_books ids c order books w ≡ (ok o, w')
      → (length books ≡ length ids) × (fill_order books c order w ≡ (ok o, w'))
  unfolding check_books
  check_books_ok ids books c w w' order o done =
      elim (Bool-cases (not (eqb (length books) (length ids)))) [
        | inl missing ↦ absurd (ground arith)
        | inr all_there ↦ (ground arith, ground arith)
      ]

  insert_order_ok :
      (user_id : String) (c : Client) (w : World) (order : Order)
      → (insert_order user_id c w).0 ≡ ok order
      → let w' = (insert_order user_id c w).1 in
        (order.id ≡ env.random w.step)
        × (find_order order.id (read c w') ≡ some order)
        × (items_of order.id (read c w') ≡ items_of order.id (read c w))
        × ((read c w').books ≡ (read c w).books)
  unfolding insert_order find_order items_of find_first
  insert_order_ok user_id main w order done = ground (arith, eq_self order.id)
  insert_order_ok user_id tx w order done = ground (arith, eq_self order.id)

  -- A new order that is not refused is on record with one item for each of the listed books, which
  -- are as many as the ids that were asked for, each item with the id, the price and the author that
  -- its book had; and its total is the sum of the prices of its items. Assumed: the database's new
  -- id has no items.
  pub create_order-Priced :
      (user_id : String) (ids : List String) (c : Client) (w : World) (order : Order) (w' : World)
      → items_of (env.random w.step) (read c w) ≡ []
      → create_order user_id ids c w ≡ (ok order, w')
      → let books = find_many (is_listed ids) (read c w).books in
        (order.id ≡ env.random w.step)
        × (length books ≡ length ids)
        × Priced order.id books order (read c w')
  unfolding create_order price_order
  create_order-Priced user_id ids c w order w' unused done =
      let m = insert_order user_id c in
      elim (Result-cases (m w).0) [
        | inr (x, e) ↦ absurd (cc (bind-err m (price_order ids c) w x e))
        | inl (order0, e) ↦
            let (named, found, kept, same_books) = insert_order_ok user_id c w order0 e in
            let priced : price_order ids c order0 (m w).1 ≡ (ok order, w') =
              sym (bind-ok m (price_order ids c) w order0 e) ∙ done in
            let books = find_many (is_listed ids) (read c (m w).1).books in
            let (all_there, filled) = check_books_ok ids books c (m w).1 w' order0 order priced in
            let none_yet : items_of order0.id (read c w) ≡ [] = rw named unused in
            let (o, v, run, same_id, fits) =
              fill_order-Priced books c (m w).1 order0 found (kept ∙ none_yet) in
            let same : (ok o, v) ≡ (ok order, w') = sym run ∙ filled in
            let pair : ◌≡◌ {A = Order × World} (o, v) (order, w') = cc same in
            subst
              (λ (l : List Book).
                (order.id ≡ env.random w.step)
                × (length (find_many (is_listed ids) l) ≡ length ids)
                × Priced order.id (find_many (is_listed ids) l) order (read c w'))
              same_books
              (subst
                (λ (p : Order × World).
                  (p.0.id ≡ env.random w.step)
                  × (length books ≡ length ids)
                  × Priced p.0.id books p.0 (read c p.1))
                pair
                (
                  same_id ∙ named,
                  all_there,
                  subst (λ i. Priced i books o (read c v)) (sym same_id) fits,
                ))
      ]
