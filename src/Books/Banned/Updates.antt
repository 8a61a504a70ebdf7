-- ===== src/Books/Banned/Updates.antt =====
-- An author's edit of a book, and a book that is banned.

use mathlib.Core.Path.{subst}
use nadbooks_backend.Prelude.{
  String, ◌≡◌, refl, true, false, none, some, Option, arith, inl, inr, Bool-cases, Option-cases,
  find_first, eq_iff, not, ◌&&◌, ◌==◌, is_some,
}
use nadbooks_backend.Prelude.Distinct.{find_first-stronger}
use nadbooks_backend.Schema.{Book}
use nadbooks_backend.Effects.{
  World, Env, Action, err, pure, throw, bad_request, not_found, ◌>>=◌, ◌>>◌, throw_if, catch,
}
use nadbooks_backend.Effects.Laws.{
  Keeps, bind-Keeps, then-Keeps, catch-Keeps, throw_if-Keeps, or_throw-Keeps, bind-err,
}
use nadbooks_backend.Redis.{del}
use nadbooks_backend.Books.Reading.{book_key}
use nadbooks_backend.Mime.{allowed_book_labels, allowed_image_labels}
use nadbooks_backend.Storage.{Provider, Upload}
use nadbooks_backend.Books.{
  Library, of_author, find_book, set_book, update_row, find_author_book_by_id,
}
use nadbooks_backend.Books.Uploads.{upload_book_file, upload_cover, delete_opt}
use nadbooks_backend.Books.Uploads.Update.{
  UpdateBook, updated, title_or, check_genre, check_upload, upload_book_opt, upload_cover_opt,
  roll_back_opt, upload_both, replace_files, delete_replaced, check_update, update_found,
  update_book, is_empty,
}
use nadbooks_backend.Books.Banned.{escapes, Changes-IsBanned, other_book}
use nadbooks_backend.Books.Banned.Files.{
  Apart, Banned, check_upload-Banned, check_genre-Banned, delete_opt-Banned, delete_replaced-Banned,
  book_file-Banned, cover-Banned,
}

module _ (id admin_id : String) where
  find-Banned :
      (j author_id : String) → Keeps (Banned id admin_id) (find_author_book_by_id j author_id false)
  unfolding find_author_book_by_id
  find-Banned j author_id w h =
      or_throw-Keeps (Banned id admin_id) (find_first (of_author j author_id false) w.db.books)
        (not_found "Not Found") w h

  -- Nobody is the author of a banned book that is not deleted.
  absent :
      (j author_id : String) (w : World)
      → j ≡ id
      → Banned id admin_id w
      → find_first (of_author j author_id false) w.db.books ≡ none
  absent j author_id w own h =
      find_first-stronger (escapes id admin_id) (of_author j author_id false) w.db.books h
        (λ row fits.
          let fits' = subst (λ x. of_author x author_id false row ≡ true) own fits in
          ground (arith, fits'))

  refused :
      (j author_id : String) (w : World)
      → j ≡ id
      → Banned id admin_id w
      → (find_author_book_by_id j author_id false w).0 ≡ err (not_found "Not Found")
  unfolding find_author_book_by_id
  refused j author_id w own h = ground (arith, absent j author_id w own h)

  -- The row of another book is updated.
  update_row-Banned :
      (j : String) (f : Book → Book)
      → (j == id) ≡ false
      → ((row : Book) → (f row).id ≡ row.id)
      → Keeps (Banned id admin_id) (update_row j f)
  unfolding update_row set_book
  update_row-Banned j f away same w h =
      Changes-IsBanned id admin_id j w (update_row j f w).1 (Unit {0}) f
        (elim (Option-cases (find_book j w.db)) [
          | inl gone ↦ inl (ground (arith, gone))
          | inr (first, there) ↦ inr (tt, ground (arith, there))
        ])
        h (λ done row here banned. other_book id admin_id j f row away same here)

  module _ ⦃provider : Provider⦄ (apart : Apart provider) where
    module _ ⦃env : Env⦄ ⦃library : Library⦄ where
      replace-Banned :
          (j : String) (dto : UpdateBook) (row : Book) (urls : Option String × Option String)
          → (j == id) ≡ false
          → Keeps (Banned id admin_id) (replace_files j dto row urls)
      unfolding replace_files del
      replace-Banned j dto row (book_url, cover_url) away =
          let f = updated dto book_url cover_url in
          let old_book = delete_replaced book_url row.book_url in
          let old_cover = delete_replaced cover_url row.book_cover_url in
          then-Keeps (Banned id admin_id) (update_row j f)
            (old_book >> (old_cover >> del (book_key j))) (update_row-Banned j f away (λ r. refl))
            (then-Keeps (Banned id admin_id) old_book (old_cover >> del (book_key j))
              (delete_replaced-Banned id admin_id apart book_url row.book_url)
              (then-Keeps (Banned id admin_id) old_cover (del (book_key j))
                (delete_replaced-Banned id admin_id apart cover_url row.book_cover_url) (λ w h. h)))

      book_opt-Banned :
          (file : Option Upload) (title : String)
          → Keeps (Banned id admin_id) (upload_book_opt file title)
      book_opt-Banned none title = λ w h. h
      book_opt-Banned (some file) title =
          bind-Keeps (Banned id admin_id) (upload_book_file file title) (λ url. pure (some url))
            (book_file-Banned id admin_id apart file title) (λ url w h. h)

      cover_opt-Banned :
          (cover : Option Upload) (title : String)
          → Keeps (Banned id admin_id) (upload_cover_opt cover title)
      cover_opt-Banned none title = λ w h. h
      cover_opt-Banned (some cover) title =
          bind-Keeps (Banned id admin_id) (upload_cover cover title) (λ url. pure (some url))
            (cover-Banned id admin_id apart cover title) (λ url w h. h)

      both-Banned :
          (file cover : Option Upload) (title : String)
          → Keeps (Banned id admin_id) (upload_both file cover title)
      unfolding upload_both
      both-Banned file cover title =
          let then_cover : Option String → Action (Option String) =
            λ book_url. catch (upload_cover_opt cover title) (roll_back_opt book_url) in
          let answer : Option String → Option String → Action (Option String × Option String) =
            λ book_url cover_url. pure (book_url, cover_url) in
          bind-Keeps (Banned id admin_id) (upload_book_opt file title)
            (λ book_url. then_cover book_url >>= answer book_url) (book_opt-Banned file title)
            (λ book_url.
              bind-Keeps (Banned id admin_id) (then_cover book_url) (answer book_url)
                (catch-Keeps (Banned id admin_id) (upload_cover_opt cover title)
                  (roll_back_opt book_url) (cover_opt-Banned cover title)
                  (λ e.
                    then-Keeps (Banned id admin_id) (delete_opt book_url) (throw e)
                      (delete_opt-Banned id admin_id apart book_url) (λ w h. h)))
                (λ cover_url w h. h))

      check_update-Banned :
          (dto : UpdateBook) (file cover : Option Upload)
          → Keeps (Banned id admin_id) (check_update dto file cover)
      unfolding check_update
      check_update-Banned dto file cover =
          let on_file = check_upload file allowed_book_labels in
          let on_cover = check_upload cover allowed_image_labels in
          then-Keeps (Banned id admin_id) (check_genre dto.genre_id) (on_file >> on_cover)
            (check_genre-Banned id admin_id dto.genre_id)
            (then-Keeps (Banned id admin_id) on_file on_cover
              (check_upload-Banned id admin_id file allowed_book_labels)
              (check_upload-Banned id admin_id cover allowed_image_labels))

      found-Banned :
          (j : String) (dto : UpdateBook) (file cover : Option Upload) (row : Book)
          → (j == id) ≡ false
          → Keeps (Banned id admin_id) (update_found j dto file cover row)
      unfolding update_found
      found-Banned j dto file cover row away =
          let upload = upload_both file cover (title_or dto.title row.title) in
          then-Keeps (Banned id admin_id) (check_update dto file cover)
            (upload >>= replace_files j dto row) (check_update-Banned dto file cover)
            (bind-Keeps (Banned id admin_id) upload (replace_files j dto row)
              (both-Banned file cover (title_or dto.title row.title))
              (λ urls. replace-Banned j dto row urls away))

      -- A ban outlasts an edit by an author, of this book or of another.
      pub update-IsBanned :
          (j author_id : String) (dto : UpdateBook) (file cover : Option Upload)
          → Keeps (Banned id admin_id) (update_book j author_id dto file cover)
      unfolding update_book
      update-IsBanned j author_id dto file cover =
          let empty = is_empty dto && not (is_some file) && not (is_some cover) in
          let complaint = bad_request "Please provide fields to be updated" in
          let find = find_author_book_by_id j author_id false in
          let k = update_found j dto file cover in
          then-Keeps (Banned id admin_id) (throw_if empty complaint) (find >>= k)
            (throw_if-Keeps (Banned id admin_id) empty complaint)
            (elim (Bool-cases (j == id)) [
              | inr away ↦
                  bind-Keeps (Banned id admin_id) find k (find-Banned j author_id)
                    (λ row. found-Banned j dto file cover row away)
              | inl same ↦ λ w h.
                  let own : j ≡ id = (eq_iff j id).0 same in
                  rw (bind-err find k w (not_found "Not Found") (refused j author_id w own h))
                    (find-Banned j author_id w h)
            ])
