-- ===== src/Books/Uploads/Update.antt =====
-- `updateBook` of src/books/books.service.ts.

use nadbooks_backend.Prelude.{
  ℕ, String, Bool, false, ◌==◌, ◌&&◌, not, Option, none, some, List, is_some, if◌then◌else◌,
}
use nadbooks_backend.Prelude.Int.{ℤ}
use nadbooks_backend.Schema.{Book}
use nadbooks_backend.Effects.{
  Env, Error, Action, Void, bad_request, pure, throw, ◌>>=◌, ◌>>◌, throw_if, catch,
}
use nadbooks_backend.Redis.{del}
use nadbooks_backend.Mime.{allowed_book_labels, allowed_image_labels, assert_allowed_type_from_path}
use nadbooks_backend.Genre.{assert_exists}
use nadbooks_backend.Storage.{Provider, Upload, delete_file}
use nadbooks_backend.Books.{Library, update_row, find_author_book_by_id}
use nadbooks_backend.Books.Reading.{book_key}
use nadbooks_backend.Books.Uploads.{upload_cover, upload_book_file, delete_opt}

pub record UpdateBook : Type 0 where
  pub title : Option String
  pub genre_id : Option String
  pub price : Option ℤ
  pub is_mature : Option Bool
  pub date_authored : Option ℕ

abbrev pub is_empty : UpdateBook → Bool
is_empty dto =
    not (is_some dto.title)
    && not (is_some dto.genre_id)
    && not (is_some dto.price)
    && not (is_some dto.is_mature)
    && not (is_some dto.date_authored)

abbrev or_keep : {A : Type 0} → Option A → A → A
or_keep none a = a
or_keep (some b) a = b

abbrev pub updated : UpdateBook → Option String → Option String → Book → Book
updated dto book_url cover_url row = record row {
  title = or_keep dto.title row.title;
  genre_id = or_keep dto.genre_id row.genre_id;
  price = or_keep dto.price row.price;
  is_mature = or_keep dto.is_mature row.is_mature;
  date_authored = or_keep dto.date_authored row.date_authored;
  book_url = or_keep book_url row.book_url;
  book_cover_url = or_keep cover_url row.book_cover_url;
}

-- `title || otherwise`
abbrev pub title_or : Option String → String → String
title_or none otherwise = otherwise
title_or (some title) otherwise = if title == "" then otherwise else title

module _ ⦃provider : Provider⦄ where
  -- A replaced object, if its reference is not empty.
  abbrev pub delete_replaced : Option String → String → Action Void
  delete_replaced none old = pure tt
  delete_replaced (some new) old = if old == "" then pure tt else delete_file old

module _ ⦃env : Env⦄ ⦃library : Library⦄ where
  module _ ⦃provider : Provider⦄ where
    abbrev pub check_upload : Option Upload → List String → Action Void
    check_upload none allowed = pure tt
    check_upload (some file) allowed = assert_allowed_type_from_path file.bytes allowed >> pure tt

    abbrev pub check_genre : Option String → Action Void
    check_genre none = pure tt
    check_genre (some id) = if id == "" then pure tt else (assert_exists id >> pure tt)

    abbrev pub upload_book_opt : Option Upload → String → Action (Option String)
    upload_book_opt none title = pure none
    upload_book_opt (some file) title = upload_book_file file title >>= λ url. pure (some url)

    abbrev pub upload_cover_opt : Option Upload → String → Action (Option String)
    upload_cover_opt none title = pure none
    upload_cover_opt (some cover) title = upload_cover cover title >>= λ url. pure (some url)

    abbrev pub roll_back_opt : {A : Type 0} → Option String → Error → Action A
    roll_back_opt book_url e = delete_opt book_url >> throw e

    -- The `try` of `updateBook`: a cover that fails takes the new book file with it.
    unfoldable pub upload_both :
        Option Upload → Option Upload → String → Action (Option String × Option String)
    unfolding upload_book_file upload_cover delete_file
    upload_both file cover title = upload_book_opt file title >>= λ book_url.
        catch (upload_cover_opt cover title) (roll_back_opt book_url) >>= λ cover_url.
        pure (book_url, cover_url)

    -- What `updateBook` does once the uploads are there.
    unfoldable pub replace_files :
        String → UpdateBook → Book → Option String × Option String → Action Void
    unfolding update_row delete_file del
    replace_files id dto row (book_url, cover_url) = do
      update_row id (updated dto book_url cover_url)
      delete_replaced book_url row.book_url
      delete_replaced cover_url row.book_cover_url
      del (book_key id)

    -- What `updateBook` checks before it uploads anything.
    unfoldable pub check_update : UpdateBook → Option Upload → Option Upload → Action Void
    unfolding assert_exists assert_allowed_type_from_path
    check_update dto file cover =
        check_genre dto.genre_id
        >> (check_upload file allowed_book_labels >> check_upload cover allowed_image_labels)

    unfoldable pub update_found :
        String → UpdateBook → Option Upload → Option Upload → Book → Action Void
    unfolding check_update upload_both replace_files
    update_found id dto file cover row =
        check_update dto file cover
        >> (upload_both file cover (title_or dto.title row.title) >>= replace_files id dto row)

    unfoldable pub update_book :
        String → String → UpdateBook → Option Upload → Option Upload → Action Void
    unfolding find_author_book_by_id update_found
    update_book id user_id dto file cover =
        throw_if (is_empty dto && not (is_some file) && not (is_some cover))
          (bad_request "Please provide fields to be updated")
        >> (find_author_book_by_id id user_id false >>= update_found id dto file cover)
