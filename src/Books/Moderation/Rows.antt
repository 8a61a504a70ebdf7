-- ===== src/Books/Moderation/Rows.antt =====
-- What the requests on a book leave in its table, on every branch.
use nadbooks_backend.Prelude.{
  String, ◌≡◌, ◌⊎◌, false, some, arith, inl, inr, Bool-cases, Option-cases, find_first,
  update_first, is_text, not, ◌&&◌, ◌==◌,
}
use nadbooks_backend.Schema.{Book, BookStatus}
use nadbooks_backend.Effects.{World, Env}
use nadbooks_backend.Redis.{del}
use nadbooks_backend.Genre.{assert_exists, find_genre}
use nadbooks_backend.Auth.Crypto.{JwtPayload}
use nadbooks_backend.Books.{
  has_id, of_author, find_book, set_book, update_row, find_author_book_by_id, is_admin,
}
use nadbooks_backend.Books.Moderation.{
  deleted_by, restored, reviewed, edited, AdminEdit, delete_book, is_hidden, check_restorer,
  restore_book, review_book, admin_update_book,
}

-- The books after an operation: the same, or with one row changed under a condition.
abbrev pub Changes : World → World → Type 0 → String → (Book → Book) → Type 0
Changes w v C id f =
    (v.db.books ≡ w.db.books) ⊎ (C × (v.db.books ≡ update_first (has_id id) f w.db.books))

pub delete_rows :
    (id author_id : String) (w : World)
    → Changes w
        (delete_book id author_id w).1
        ((row : Book) × (find_first (of_author id author_id false) w.db.books ≡ some row))
        id
        (deleted_by author_id)
unfolding delete_book find_author_book_by_id update_row set_book del
delete_rows id author_id w =
    elim (Option-cases (find_first (of_author id author_id false) w.db.books)) [
      | inl nothing ↦ inl (ground (arith, nothing))
      | inr (row, found) ↦ elim (Option-cases (find_book id w.db)) [
        | inl gone ↦ inl (ground (arith, found, gone))
        | inr (first, there) ↦ inr ((row, found), ground (arith, found, there))
      ]
    ]

pub restore_rows :
    (id : String) (user : JwtPayload) (w : World)
    → Changes w
        (restore_book id user w).1
        ((row : Book) × (find_first (is_hidden id) w.db.books ≡ some row)
          × (not (is_admin user.role) && not (is_text row.deleted_by_id user.sub) ≡ false))
        id
        restored
unfolding restore_book check_restorer update_row set_book del
restore_rows id user w = elim (Option-cases (find_first (is_hidden id) w.db.books)) [
  | inl nothing ↦ inl (ground (arith, nothing))
  | inr (row, found) ↦
      elim (Bool-cases (not (is_admin user.role) && not (is_text row.deleted_by_id user.sub))) [
        | inl refused ↦ inl (ground (arith, found, refused))
        | inr allowed ↦ elim (Option-cases (find_book id w.db)) [
          | inl gone ↦ inl (ground (arith, found, allowed, gone))
          | inr (first, there) ↦ inr ((row, found, allowed), ground (arith, found, allowed, there))
        ]
      ]
]

module _ ⦃env : Env⦄ where
  pub review_rows :
      (id admin_id : String) (status : BookStatus) (w : World)
      → Changes w
          (review_book id admin_id status w).1
          (Unit {0})
          id
          (reviewed admin_id status (env.clock w.step))
  unfolding review_book update_row set_book del
  review_rows id admin_id status w = elim (Option-cases (find_book id w.db)) [
    | inl gone ↦ inl (ground (arith, gone))
    | inr (first, there) ↦ inr (tt, ground (arith, there))
  ]

pub edit_rows :
    (id : String) (payload : AdminEdit) (w : World)
    → Changes w (admin_update_book id payload w).1 (Unit {0}) id (edited payload)
unfolding admin_update_book assert_exists update_row set_book del
edit_rows id payload w = elim (Option-cases payload.genre_id) [
  | inl unset ↦ elim (Option-cases (find_book id w.db)) [
    | inl gone ↦ inl (ground (arith, unset, gone))
    | inr (first, there) ↦ inr (tt, ground (arith, unset, there))
  ]
  | inr (genre_id, given) ↦ elim (Bool-cases (genre_id == "")) [
    | inl empty ↦ elim (Option-cases (find_book id w.db)) [
      | inl gone ↦ inl (ground (arith, given, empty, gone))
      | inr (first, there) ↦ inr (tt, ground (arith, given, empty, there))
    ]
    | inr named ↦ elim (Option-cases (find_genre genre_id w.db)) [
      | inl unknown ↦ inl (ground (arith, given, named, unknown))
      | inr (genre, exists) ↦ elim (Option-cases (find_book id w.db)) [
        | inl gone ↦ inl (ground (arith, given, named, exists, gone))
        | inr (first, there) ↦ inr (tt, ground (arith, given, named, exists, there))
      ]
    ]
  ]
]
