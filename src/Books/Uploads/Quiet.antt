-- ===== src/Books/Uploads/Quiet.antt =====
-- The steps of `storeBook` that touch no object.
use nadbooks_backend.Prelude.{
  ℕ, suc, String, Bool, is_in, true, false, none, some, Option, List, arith, inl, inr, Bool-cases,
  not, is_some,
}
use nadbooks_backend.Schema.{Book}
use nadbooks_backend.Effects.{Env, StoredObject, pure, ◌>>=◌, throw_if, bad_request, request}
use nadbooks_backend.Effects.Laws.{Keeps, bind-Keeps, then-Keeps, catch-Keeps, or_throw-Keeps}
use nadbooks_backend.Storage.{Upload}
use nadbooks_backend.Mime.{
  assert_allowed_type_from_path, assert_allowed_type, allowed_book_labels, allowed_image_labels,
  allowed_or_throw, detect_label, read_head,
}
use nadbooks_backend.Genre.{assert_exists, find_genre}
use nadbooks_backend.Users.Store.{find_user}
use nadbooks_backend.Books.{Library, get_book_by_title, find_book, without_url}
use nadbooks_backend.Books.Uploads.{
  StoreBook, check_files, check_new, check_store, new_book, jpeg_or_same, resize_and_optimize,
  create_row, insert_book,
}
use nadbooks_backend.Books.Uploads.RollBack.{Same}

module _ (objects : List StoredObject) where
  allowed-Same :
      (label : Option String) (allowed : List String)
      → Keeps (Same objects) (allowed_or_throw label allowed)
  allowed-Same none allowed = λ w h. h
  allowed-Same (some label) allowed = elim (Bool-cases (is_in label allowed)) [
    | inl there ↦ λ w h. rw there h
    | inr unknown ↦ λ w h. rw unknown h
  ]

  pub assert-Same :
      (file : List ℕ) (allowed : List String)
      → Keeps (Same objects) (assert_allowed_type_from_path file allowed)
  unfolding assert_allowed_type_from_path assert_allowed_type
  assert-Same file allowed = allowed-Same (detect_label (read_head file)) allowed

  exists-Same : (id : String) → Keeps (Same objects) (assert_exists id)
  unfolding assert_exists
  exists-Same id w h =
      or_throw-Keeps (Same objects) (find_genre id w.db) (bad_request "Invalid genre") w h

  check_files-Same : (file cover : Upload) → Keeps (Same objects) (check_files file cover)
  unfolding check_files
  check_files-Same file cover =
      then-Keeps (Same objects) (assert_allowed_type_from_path file.bytes allowed_book_labels)
        (assert_allowed_type_from_path cover.bytes allowed_image_labels)
        (assert-Same file.bytes allowed_book_labels) (assert-Same cover.bytes allowed_image_labels)

  check_new-Same :
      (file cover : Upload) (existing : Option Book)
      → Keeps (Same objects) (check_new file cover existing)
  unfolding check_new
  check_new-Same file cover existing =
      then-Keeps (Same objects) (throw_if (is_some existing) (bad_request "Book already exists"))
        (check_files file cover) (λ w h. h) (check_files-Same file cover)

  pub check_store-Same :
      ⦃env : Env⦄ (dto : StoreBook) (file cover : Upload)
      → Keeps (Same objects) (check_store dto file cover)
  unfolding check_store get_book_by_title
  check_store-Same dto file cover =
      then-Keeps (Same objects) (assert_exists dto.genre_id)
        (get_book_by_title dto.title false >>= check_new file cover) (exists-Same dto.genre_id)
        (bind-Keeps (Same objects) (get_book_by_title dto.title false) (check_new file cover)
          (λ w h. h) (check_new-Same file cover))

  module _ ⦃env : Env⦄ ⦃library : Library⦄ where
    jpeg-Same : (buffer : List ℕ) (known : Bool) → Keeps (Same objects) (jpeg_or_same buffer known)
    jpeg-Same buffer true = λ w h. h
    jpeg-Same buffer false = λ w h. h

    pub resize-Same : (buffer : List ℕ) → Keeps (Same objects) (resize_and_optimize buffer)
    unfolding resize_and_optimize
    resize-Same buffer =
        catch-Keeps (Same objects)
          (request (λ n. library.metadata_format n buffer) >>= jpeg_or_same buffer)
          (λ e. pure buffer)
          (bind-Keeps (Same objects) (request (λ n. library.metadata_format n buffer))
            (jpeg_or_same buffer) (λ w h. h) (jpeg-Same buffer))
          (λ e w h. h)

    insert-Same : (row : String → Book) → Keeps (Same objects) (insert_book row)
    unfolding insert_book
    insert-Same row w h =
        let id = env.random w.step in
        elim (Bool-cases (is_some (find_book id w.db))) [
          | inl taken ↦ ground (arith, h, taken)
          | inr free ↦ elim (Bool-cases (not (is_some (find_user (row id).author_id w.db)))) [
            | inl orphan ↦ ground (arith, h, free, orphan)
            | inr known ↦ ground (arith, h, free, known)
          ]
        ]

    pub create-Same :
        (dto : StoreBook) (author_id book_url cover_url : String)
        → Keeps (Same objects) (create_row dto author_id book_url cover_url)
    unfolding create_row
    create-Same dto author_id book_url cover_url w h =
        bind-Keeps (Same objects)
          (insert_book (new_book dto book_url cover_url author_id (env.clock w.step)))
          (λ row. pure (without_url row))
          (insert-Same (new_book dto book_url cover_url author_id (env.clock w.step)))
          (λ row w h. h) (record w { step = suc w.step }) h
