-- ===== src/Books/Uploads.antt =====
-- `storeBook` of src/books/books.service.ts with their uploads, and
-- src/common/image/sharp-image-processing.service.ts.
pub mod RollBack
pub mod Storing
pub mod NoOrphans
pub mod Orphans
pub mod Update
pub mod OnR2
pub mod Quiet
use Prim.Native.String
use nadbooks_backend.Prelude.{
  ℕ, String, Bool, true, false, ◌==◌, ◌&&◌, not, Option, none, some, List, ◌∷◌, is_some, or_else,
  if◌then◌else◌,
}
use nadbooks_backend.Prelude.Int.{ℤ}
use nadbooks_backend.Schema.{Book, pending_approval}
use nadbooks_backend.Effects.{
  World, Env, Error, Action, Void, bad_request, external, unique_violation, pure, throw, gets, ask,
  request, ◌>>=◌, ◌>>◌, throw_if, modify, catch,
}
use nadbooks_backend.Redis.{del}
use nadbooks_backend.Mime.{
  allowed_book_labels, allowed_image_labels, mime_for_label, assert_allowed_type_from_path,
}
use nadbooks_backend.Genre.{assert_exists}
use nadbooks_backend.Users.Store.{find_user}
use nadbooks_backend.Storage.{
  Provider, Upload, book_file, cover_file, store_file, store_stream, delete_file,
}
use nadbooks_backend.Books.{
  Library, find_book, update_row, get_book_by_title, find_author_book_by_id, without_url,
}
use nadbooks_backend.Books.Reading.{book_key}

pub record StoreBook : Type 0 where
  pub title : String
  pub genre_id : String
  pub price : ℤ
  pub is_mature : Bool
  pub date_authored : ℕ

abbrev pub new_book : StoreBook → String → String → String → ℕ → String → Book
new_book dto book_url cover_url author_id now id = record {
  id = id;
  title = dto.title;
  genre_id = dto.genre_id;
  price = dto.price;
  is_mature = dto.is_mature;
  page_count = 0;
  book_url = book_url;
  book_cover_url = cover_url;
  date_authored = dto.date_authored;
  date_uploaded = now;
  author_id = author_id;
  is_deleted = false;
  deleted_by_id = none;
  date_reviewed = none;
  reviewed_by_id = none;
  status = pending_approval;
}

abbrev pub add_book : Book → World → World
add_book row w = record w { db = record w.db { books = row ∷ w.db.books } }

unfoldable pub insert_book : ⦃env : Env⦄ → (String → Book) → Action Book
unfolding find_book
insert_book ⦃env⦄ row = do
  id ← ask env.random
  taken ← gets (λ w. is_some (find_book id w.db))
  throw_if taken unique_violation
  orphan ← gets (λ w. not (is_some (find_user (row id).author_id w.db)))
  throw_if orphan (external "Foreign key constraint violated")
  modify (add_book (row id))
  pure (row id)

unfoldable pub check_files : Upload → Upload → Action String
unfolding assert_allowed_type_from_path
check_files file cover =
    assert_allowed_type_from_path file.bytes allowed_book_labels
    >> assert_allowed_type_from_path cover.bytes allowed_image_labels

unfoldable pub check_new : Upload → Upload → Option Book → Action String
unfolding check_files
check_new file cover existing =
    throw_if (is_some existing) (bad_request "Book already exists") >> check_files file cover

-- What `storeBook` checks before it uploads anything.
unfoldable pub check_store : ⦃env : Env⦄ → StoreBook → Upload → Upload → Action String
unfolding assert_exists get_book_by_title check_new
check_store dto file cover =
    assert_exists dto.genre_id >> (get_book_by_title dto.title false >>= check_new file cover)

-- The row of a book whose files are in the store.
unfoldable pub create_row : ⦃env : Env⦄ → StoreBook → String → String → String → Action Book
unfolding insert_book
create_row ⦃env⦄ dto author_id book_url cover_url = do
  now ← ask env.clock
  row ← insert_book (new_book dto book_url cover_url author_id now)
  pure (without_url row)

module _ ⦃provider : Provider⦄ where
  abbrev pub delete_opt : Option String → Action Void
  delete_opt none = pure tt
  delete_opt (some reference) = delete_file reference

  -- The uploads are removed, and the error goes on.
  unfoldable pub roll_back : {A : Type 0} → String → Option String → Error → Action A
  unfolding delete_file
  roll_back book_url cover_url e = delete_file book_url >> (delete_opt cover_url >> throw e)

module _ ⦃env : Env⦄ ⦃library : Library⦄ where
  abbrev pub jpeg_or_same : List ℕ → Bool → Action (List ℕ)
  jpeg_or_same buffer true = request (λ n. library.to_jpeg n buffer)
  jpeg_or_same buffer false = pure buffer

  unfoldable pub resize_and_optimize : List ℕ → Action (List ℕ)
  resize_and_optimize buffer =
      catch (request (λ n. library.metadata_format n buffer) >>= jpeg_or_same buffer)
        (λ e. pure buffer)

  module _ ⦃provider : Provider⦄ where
    -- The buffer is never missing, so "Invalid book cover image" is not thrown.
    unfoldable pub upload_cover : Upload → String → Action String
    unfolding assert_allowed_type_from_path resize_and_optimize store_file
    upload_cover cover title = do
      assert_allowed_type_from_path cover.bytes allowed_image_labels
      buffer ← resize_and_optimize cover.bytes
      store_file cover_file (record cover { bytes = buffer; mimetype = "image/jpeg" })
          (String.◌++◌ title "-cover")

    unfoldable pub upload_book_file : Upload → String → Action String
    unfolding assert_allowed_type_from_path store_stream
    upload_book_file file title = do
      label ← assert_allowed_type_from_path file.bytes allowed_book_labels
      store_stream book_file file title (or_else (mime_for_label label) "application/octet-stream")

    -- The `try` of `storeBook` once the cover is up.
    unfoldable pub store_row : StoreBook → String → String → String → Action Book
    unfolding create_row roll_back
    store_row dto author_id book_url cover_url =
        catch (create_row dto author_id book_url cover_url) (roll_back book_url (some cover_url))

    -- The `try` of `storeBook`.
    unfoldable pub store_cover : StoreBook → Upload → String → String → Action Book
    unfolding store_row upload_cover roll_back
    store_cover dto cover author_id book_url =
        catch (upload_cover cover dto.title) (roll_back book_url none)
        >>= store_row dto author_id book_url

    unfoldable pub store_files : StoreBook → Upload → Upload → String → Action Book
    unfolding upload_book_file store_cover
    store_files dto file cover author_id =
        upload_book_file file dto.title >>= store_cover dto cover author_id

    unfoldable pub store_book : StoreBook → Upload → Upload → String → Action Book
    unfolding check_store store_files
    store_book dto file cover author_id =
        check_store dto file cover >> store_files dto file cover author_id
