-- ===== src/Payments/Orders.antt =====
-- src/payments/shared/order.service.ts. `serializeOrder` only rearranges what a response shows, so
-- an order is returned as its row.
pub mod Total
use nadbooks_backend.Prelude.{
  ℕ, suc, String, Bool, true, false, ◌==◌, ◌||◌, not, Option, none, some, List, [], ◌∷◌, find_first,
  find_many, update_first, sum_by, is_some, eqb, page, length, is_in,
}
use nadbooks_backend.Prelude.Int.{ℤ, pos}
use nadbooks_backend.Schema.{Db, Book, Order, OrderBook, OrderStatus}
use nadbooks_backend.Effects.{
  Env, Action, Void, Client, plain, record_not_found, unique_violation, pure, gets, or_throw, ask,
  ◌>>=◌, ◌>>◌, modify, throw_if, read, write,
}

abbrev pub has_id : String → Order → Bool
has_id id order = order.id == id

abbrev pub of_order : String → OrderBook → Bool
of_order id item = item.order_id == id

abbrev pub of_user : String → Order → Bool
of_user id order = order.user_id == id

abbrev pub is_listed : List String → Book → Bool
is_listed ids book = is_in book.id ids

unfoldable pub find_order : String → Db → Option Order
find_order id d = find_first (has_id id) d.orders

-- The rows of `OrderBook` of one order.
unfoldable pub items_of : String → Db → List OrderBook
items_of id d = find_many (of_order id) d.order_books

unfoldable pub set_order : String → (Order → Order) → Db → Db
set_order id f d = record d { orders = update_first (has_id id) f d.orders }

unfoldable pub update_order : String → (Order → Order) → Client → Action Order
update_order id f c = do
  order ← or_throw (← gets (λ w. find_order id (read c w))) record_not_found
  modify (λ w. write c (set_order id f (read c w)) w)
  pure (f order)

abbrev pub book_price : Book → ℤ
book_price book = book.price

abbrev pub item_price : OrderBook → ℤ
item_price item = item.price

abbrev pub with_total : ℤ → Order → Order
with_total total order = record order { total_amount = total }

abbrev pub with_status : OrderStatus → Order → Order
with_status status order = record order { status = status }

-- `orderBook.createMany`, row by row.
unfoldable pub create_items : ⦃env : Env⦄ → String → List Book → Client → Action Void
create_items order_id [] c = pure tt
create_items ⦃env⦄ order_id (book ∷ books) c = do
  id ← ask env.random
  let item : OrderBook = record {
    id = id;
    order_id = order_id;
    book_id = book.id;
    price = book.price;
    author_id = book.author_id;
  }
  modify (λ w. let d = read c w in write c (record d { order_books = item ∷ d.order_books }) w)
  create_items order_id books c

-- `order.create`
unfoldable pub insert_order : ⦃env : Env⦄ → String → Client → Action Order
insert_order ⦃env⦄ user_id c = do
  id ← ask env.random
  let order : Order = record {
    id = id;
    user_id = user_id;
    status = OrderStatus.pending;
    total_amount = pos 0;
  }
  taken ← gets (λ w. is_some (find_order id (read c w)))
  throw_if taken unique_violation
  modify (λ w. let d = read c w in write c (record d { orders = order ∷ d.orders }) w)
  pure order

-- The rows of the books, then their sum as the total.
unfoldable pub fill_order : ⦃env : Env⦄ → List Book → Client → Order → Action Order
unfolding create_items update_order
fill_order books c order = create_items order.id books c >>= λ done.
    update_order order.id (with_total (sum_by book_price books)) c

unfoldable pub check_books : ⦃env : Env⦄ → List String → Client → Order → List Book → Action Order
unfolding fill_order
check_books book_ids c order books =
    throw_if (not (eqb (length books) (length book_ids))) (plain "Some books do not exist")
    >>= λ done. fill_order books c order

-- `findMany({ where: { id: { in: bookIds } } })` finds each book once, so a repeated id is
-- refused as a missing one.
unfoldable pub price_order : ⦃env : Env⦄ → List String → Client → Order → Action Order
unfolding check_books
price_order book_ids c order =
    gets (λ w. find_many (is_listed book_ids) (read c w).books) >>= check_books book_ids c order

unfoldable pub create_order : ⦃env : Env⦄ → String → List String → Client → Action Order
unfolding insert_order price_order
create_order user_id book_ids c = insert_order user_id c >>= price_order book_ids c

-- Reads through `this.db`.
unfoldable pub get_order_by_id : String → Action Order
get_order_by_id id = do or_throw (← gets (λ w. find_order id w.db)) (plain "Order not found")

unfoldable pub mark_as_paid : String → Client → Action Order
unfolding update_order
mark_as_paid id c = update_order id (with_status OrderStatus.paid) c

unfoldable pub update_order_status : String → OrderStatus → Action Void
update_order_status id status = pure tt

abbrev pub owned_by : Option String → Order → Bool
owned_by none order = true
owned_by (some id) order = of_user id order

unfoldable pub get_all_orders : Option String → Option ℕ → ℕ → Action (List Order)
get_all_orders user_id limit skip =
    gets (λ w. page limit skip (find_many (owned_by user_id) w.db.orders))

unfoldable pub get_user_order : String → Option ℕ → ℕ → Action (List Order)
get_user_order user_id limit skip =
    gets (λ w. page limit skip (find_many (of_user user_id) w.db.orders))
