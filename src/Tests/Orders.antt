-- ===== src/Tests/Orders.antt =====
-- The theorem on orders at an order of one book.
use nadbooks_backend.Prelude.{
  ◌≡◌, refl, length, [], ◌∷◌, find_first, find_many, update_first, sum_by,
}
use nadbooks_backend.Prelude.Int.{pos, ◌+ℤ◌}
use nadbooks_backend.Schema.{Order, OrderStatus}
use nadbooks_backend.Effects.{World, main}
use nadbooks_backend.Payments.Orders.{create_order, find_order, items_of, set_order, is_listed}
use nadbooks_backend.Payments.Orders.Total.{Priced, create_order-Priced}
use nadbooks_backend.Tests.Samples.{sample_env, sample_world}

abbrev ordered : World
ordered = (create_order "u1" ("b1" ∷ []) main sample_world).1

abbrev order : Order
order = record { id = "new"; user_id = "u1"; status = OrderStatus.pending; total_amount = pos 5 }

create_order-Priced_example :
    let listed = find_many (is_listed ("b1" ∷ [])) sample_world.db.books in
    (order.id ≡ "new") × (length listed ≡ 1) × Priced "new" listed order ordered.db
unfolding create_order find_order find_first items_of find_many update_first sum_by set_order ◌+ℤ◌
create_order-Priced_example =
    create_order-Priced "u1" ("b1" ∷ []) main sample_world order ordered refl refl
