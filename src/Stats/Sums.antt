-- ===== src/Stats/Sums.antt =====
-- The figures of the dashboard add up.
use nadbooks_backend.Prelude.{
  ℕ, suc, ◌+◌, String, ◌==◌, ◌≡◌, refl, ap, ◌∙◌, arith, inl, inr, Bool-cases, find_many, List, [],
  ◌∷◌, map, length, not,
}
use nadbooks_backend.Schema.{
  Db, Book, BookStatus, pending_approval, approved, rejected, OrderStatus, TransactionStatus,
}
use nadbooks_backend.Stats.{
  book_text, order_text, transaction_text, book_figures, status_figures, figures,
}
use nadbooks_backend.Stats.Tally.{tally-group_by}

abbrev having : String → List String → ℕ
having status statuses = length (find_many (λ s. s == status) statuses)

abbrev books_having : List String → ℕ
books_having ts = having "PENDING_APPROVAL" ts + having "APPROVED" ts + having "REJECTED" ts

abbrev orders_having : List String → ℕ
orders_having ts =
    having "PENDING" ts
    + having "PAID" ts
    + having "FAILED" ts
    + having "CANCELLED" ts
    + having "COMPLETED" ts

abbrev transactions_having : List String → ℕ
transactions_having ts = having "PENDING" ts + having "SUCCESS" ts + having "FAILED" ts

books_step :
    (s : BookStatus) (ts : List String) → books_having (book_text s ∷ ts) ≡ suc (books_having ts)
unfolding find_many
books_step pending_approval ts = omega arith
books_step approved ts = omega arith
books_step rejected ts = omega arith

orders_step :
    (s : OrderStatus) (ts : List String)
    → orders_having (order_text s ∷ ts) ≡ suc (orders_having ts)
unfolding find_many
orders_step OrderStatus.pending ts = omega arith
orders_step OrderStatus.paid ts = omega arith
orders_step OrderStatus.failed ts = omega arith
orders_step OrderStatus.cancelled ts = omega arith
orders_step OrderStatus.completed ts = omega arith

transactions_step :
    (s : TransactionStatus) (ts : List String)
    → transactions_having (transaction_text s ∷ ts) ≡ suc (transactions_having ts)
unfolding find_many
transactions_step TransactionStatus.pending ts = omega arith
transactions_step TransactionStatus.success ts = omega arith
transactions_step TransactionStatus.failed ts = omega arith

-- If each status counts once, the counts add up.
having_all :
    {A : Type 0} (status : A → String) (total : List String → ℕ) (rows : List A)
    → total [] ≡ 0
    → ((a : A) (ts : List String) → total (status a ∷ ts) ≡ suc (total ts))
    → total (map status rows) ≡ length rows
having_all status total [] start step = start
having_all status total (a ∷ rows) start step =
    step a (map status rows) ∙ ap suc (having_all status total rows start step)

shown_and_deleted :
    (rows : List Book)
    → length (find_many (λ b. not b.is_deleted) rows) + length (find_many (λ b. b.is_deleted) rows)
      ≡ length rows
unfolding find_many
shown_and_deleted [] = refl
shown_and_deleted (b ∷ rows) =
    let rest = shown_and_deleted rows in
    elim (Bool-cases b.is_deleted) [
      | inl gone ↦ ground (arith, gone, rest)
      | inr there ↦ ground (arith, there, rest)
    ]

-- The figures of the dashboard add up: the books that wait for review, are approved or rejected,
-- with the deleted ones, are all the books; the orders of the five statuses are all the orders; and
-- the transactions of the three statuses are all the transactions.
pub figures_add_up :
    (d : Db)
    → let f = figures d in
      let o = f.orders.by_status in
      let t = f.transactions.by_status in
      (f.books.pending_review + f.books.approved + f.books.rejected + f.books.deleted
        ≡ f.books.total)
      × (o "PENDING" + o "PAID" + o "FAILED" + o "CANCELLED" + o "COMPLETED" ≡ f.orders.total)
      × (t "PENDING" + t "SUCCESS" + t "FAILED" ≡ f.transactions.total)
unfolding book_figures status_figures find_many
figures_add_up d =
    let kept = find_many (λ b. not b.is_deleted) d.books in
    let books = map (λ b. book_text b.status) kept in
    let orders = map (λ o. order_text o.status) d.orders in
    let transactions = map (λ t. transaction_text t.status) d.transactions in
    let all_books =
      having_all (λ b. book_text b.status) books_having kept refl
        (λ b ts. books_step b.status ts) in
    let all_orders =
      having_all (λ o. order_text o.status) orders_having d.orders refl
        (λ o ts. orders_step o.status ts) in
    let all_transactions =
      having_all (λ t. transaction_text t.status) transactions_having d.transactions refl
        (λ t ts. transactions_step t.status ts) in
    let b = tally-group_by books in
    let o = tally-group_by orders in
    let t = tally-group_by transactions in
    (
      omega (
        arith,
        b "PENDING_APPROVAL",
        b "APPROVED",
        b "REJECTED",
        all_books,
        shown_and_deleted d.books,
      ),
      omega (arith, o "PENDING", o "PAID", o "FAILED", o "CANCELLED", o "COMPLETED", all_orders),
      omega (arith, t "PENDING", t "SUCCESS", t "FAILED", all_transactions),
    )
