-- ===== src/Stats.antt =====
-- src/admin/services/admin-stats.service.ts: the figures of the dashboard. Prisma's `groupBy` gives a
-- row for each value that occurs, with the number of its rows; what reads it does not see their
-- order.
pub mod Tally
pub mod Sums
use nadbooks_backend.Prelude.{
  ℕ, suc, String, Bool, ◌==◌, not, List, [], ◌∷◌, is_some, find_first, find_many, update_first, map,
  length, sum_by, if◌then◌else◌,
}
use nadbooks_backend.Prelude.Int.{ℤ}
use nadbooks_backend.Schema.{
  Db, BookStatus, pending_approval, approved, rejected, OrderStatus, TransactionStatus, Book,
}
use nadbooks_backend.Effects.{Action, gets}
use nadbooks_backend.Books.{is_admin}
use nadbooks_backend.Books.Reading.{is_settled}

pub record Counted : Type 0 where
  pub status : String
  pub count : ℕ

abbrev pub is_of : String → Counted → Bool
is_of status row = row.status == status

abbrev pub one_more : Counted → Counted
one_more row = record row { count = suc row.count }

abbrev pub count_in : String → List Counted → List Counted
count_in status rows =
    if is_some (find_first (is_of status) rows)
    then update_first (is_of status) one_more rows
    else (record { status = status; count = 1 }) ∷ rows

unfoldable pub group_by : List String → List Counted
group_by [] = []
group_by (status ∷ statuses) = count_in status (group_by statuses)

abbrev pub put_count : Counted → (String → ℕ) → String → ℕ
put_count row out status = if row.status == status then row.count else out status

unfoldable pub tally_from : (String → ℕ) → List Counted → String → ℕ
tally_from out [] = out
tally_from out (row ∷ rows) = tally_from (put_count row out) rows

-- Seeded at 0 for each value of the enumeration, which is all that is read of it.
unfoldable pub tally : List Counted → String → ℕ
unfolding tally_from
tally rows = tally_from (λ status. 0) rows

-- The values of the enumerations.
abbrev pub book_text : BookStatus → String
book_text pending_approval = "PENDING_APPROVAL"
book_text approved = "APPROVED"
book_text rejected = "REJECTED"

abbrev pub order_text : OrderStatus → String
order_text OrderStatus.pending = "PENDING"
order_text OrderStatus.paid = "PAID"
order_text OrderStatus.failed = "FAILED"
order_text OrderStatus.cancelled = "CANCELLED"
order_text OrderStatus.completed = "COMPLETED"

abbrev pub transaction_text : TransactionStatus → String
transaction_text TransactionStatus.pending = "PENDING"
transaction_text TransactionStatus.success = "SUCCESS"
transaction_text TransactionStatus.failed = "FAILED"

pub record UserFigures : Type 0 where
  pub total : ℕ
  pub verified : ℕ
  pub active : ℕ
  pub admins : ℕ

pub record BookFigures : Type 0 where
  pub total : ℕ
  pub deleted : ℕ
  pub pending_review : ℕ
  pub approved : ℕ
  pub rejected : ℕ

pub record StatusFigures : Type 0 where
  pub total : ℕ
  pub by_status : String → ℕ

pub record Figures : Type 0 where
  pub users : UserFigures
  pub books : BookFigures
  pub orders : StatusFigures
  pub transactions : StatusFigures
  pub paid_orders_total : ℤ

unfoldable pub book_figures : List Book → BookFigures
unfolding tally group_by
book_figures rows =
    let books =
      tally (group_by (map (λ b. book_text b.status) (find_many (λ b. not b.is_deleted) rows))) in
    record {
      total = length rows;
      deleted = length (find_many (λ b. b.is_deleted) rows);
      pending_review = books "PENDING_APPROVAL";
      approved = books "APPROVED";
      rejected = books "REJECTED";
    }

unfoldable pub status_figures : {A : Type 0} → (A → String) → List A → StatusFigures
unfolding tally group_by
status_figures status rows = record {
  total = length rows;
  by_status = tally (group_by (map status rows));
}

abbrev pub figures : Db → Figures
figures d = record {
  users = record {
    total = length d.users;
    verified = length (find_many (λ u. u.is_verified) d.users);
    active = length (find_many (λ u. u.is_active) d.users);
    admins = length (find_many (λ u. is_admin u.role) d.users);
  };
  books = book_figures d.books;
  orders = status_figures (λ o. order_text o.status) d.orders;
  transactions = status_figures (λ t. transaction_text t.status) d.transactions;
  paid_orders_total = sum_by (λ o. o.total_amount) (find_many (λ o. is_settled o.status) d.orders);
}

unfoldable pub get_stats : Action Figures
unfolding book_figures status_figures
get_stats = gets (λ w. figures w.db)
