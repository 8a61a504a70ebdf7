-- ===== src/Books/Banned/Files.antt =====
-- The parts of an author's edit that leave the table of books alone.
use Prim.Native.String
use nadbooks_backend.Prelude.{
  ℕ, String, Bool, ◌≡◌, ap, ◌∙◌, true, false, none, some, Option, inl, inr, Bool-cases, find_first,
  ◌==◌, List, is_in, or_else,
}
use nadbooks_backend.Effects.{World, Env, Action, pure, throw, bad_request, ◌>>=◌, request}
use nadbooks_backend.Effects.Laws.{Keeps, bind-Keeps, then-Keeps, catch-Keeps, or_throw-Keeps}
use nadbooks_backend.Mime.{
  assert_allowed_type_from_path, assert_allowed_type, allowed_or_throw, detect_label, read_head,
  allowed_book_labels, allowed_image_labels, mime_for_label,
}
use nadbooks_backend.Genre.{assert_exists, find_genre}
use nadbooks_backend.Storage.{
  Provider, Upload, FileType, book_file, cover_file, store_file, store_stream, delete_file,
}
use nadbooks_backend.Books.{Library}
use nadbooks_backend.Books.Uploads.{
  upload_book_file, upload_cover, resize_and_optimize, jpeg_or_same, delete_opt,
}
use nadbooks_backend.Books.Uploads.Update.{check_genre, check_upload, delete_replaced}
use nadbooks_backend.Books.Banned.{escapes, IsBanned}

-- The calls of the provider leave the table of books alone.
pub record Apart (provider : Provider) : Type 0 where
  pub file :
      (type : FileType) (file : Upload) (name : String) (w : World)
      → (provider.store_file type file name w).1.db.books ≡ w.db.books
  pub stream :
      (type : FileType) (file : Upload) (name mime : String) (w : World)
      → (provider.store_stream type file name mime w).1.db.books ≡ w.db.books
  pub deletion :
      (reference : String) (w : World) → (provider.delete_file reference w).1.db.books ≡ w.db.books

module _ (id admin_id : String) where
  abbrev pub Banned : World → Type 0
  Banned w = IsBanned id admin_id w

  kept :
      {A : Type 0} (m : Action A) → ((w : World) → (m w).1.db.books ≡ w.db.books) → Keeps Banned m
  kept m same w h = ap (λ l. find_first (escapes id admin_id) l) (same w) ∙ h

  allowed-Banned :
      (label : Option String) (allowed : List String)
      → Keeps Banned (allowed_or_throw label allowed)
  allowed-Banned none allowed = λ w h. h
  allowed-Banned (some label) allowed = elim (Bool-cases (is_in label allowed)) [
    | inl there ↦ λ w h. rw there h
    | inr unknown ↦ λ w h. rw unknown h
  ]

  assert-Banned :
      (file : List ℕ) (allowed : List String)
      → Keeps Banned (assert_allowed_type_from_path file allowed)
  unfolding assert_allowed_type_from_path assert_allowed_type
  assert-Banned file allowed = allowed-Banned (detect_label (read_head file)) allowed

  exists-Banned : (genre_id : String) → Keeps Banned (assert_exists genre_id)
  unfolding assert_exists
  exists-Banned genre_id w h =
      or_throw-Keeps Banned (find_genre genre_id w.db) (bad_request "Invalid genre") w h

  pub check_upload-Banned :
      ⦃env : Env⦄ ⦃library : Library⦄ ⦃provider : Provider⦄ (file : Option Upload)
      (allowed : List String)
      → Keeps Banned (check_upload file allowed)
  check_upload-Banned none allowed = λ w h. h
  check_upload-Banned (some file) allowed =
      then-Keeps Banned (assert_allowed_type_from_path file.bytes allowed) (pure tt)
        (assert-Banned file.bytes allowed) (λ w h. h)

  pub check_genre-Banned :
      ⦃env : Env⦄ ⦃library : Library⦄ ⦃provider : Provider⦄ (genre_id : Option String)
      → Keeps Banned (check_genre genre_id)
  check_genre-Banned none = λ w h. h
  check_genre-Banned (some genre_id) = elim (Bool-cases (genre_id == "")) [
    | inl empty ↦ λ w h. rw empty h
    | inr named ↦ λ w h. rw named (
        then-Keeps Banned (assert_exists genre_id) (pure tt) (exists-Banned genre_id) (λ w h. h) w
          h)
  ]

  module _ ⦃provider : Provider⦄ (apart : Apart provider) where
    pub delete_file-Banned : (reference : String) → Keeps Banned (delete_file reference)
    unfolding delete_file
    delete_file-Banned reference =
        catch-Keeps Banned (provider.delete_file reference) (λ e. pure tt)
          (kept (provider.delete_file reference) (apart.deletion reference)) (λ e w h. h)

    pub delete_opt-Banned : (reference : Option String) → Keeps Banned (delete_opt reference)
    delete_opt-Banned none = λ w h. h
    delete_opt-Banned (some reference) = delete_file-Banned reference

    pub delete_replaced-Banned :
        (new : Option String) (old : String) → Keeps Banned (delete_replaced new old)
    delete_replaced-Banned none old = λ w h. h
    delete_replaced-Banned (some new) old = elim (Bool-cases (old == "")) [
      | inl empty ↦ λ w h. rw empty h
      | inr named ↦ λ w h. rw named (delete_file-Banned old w h)
    ]

    module _ ⦃env : Env⦄ ⦃library : Library⦄ where
      pub book_file-Banned :
          (file : Upload) (title : String) → Keeps Banned (upload_book_file file title)
      unfolding upload_book_file store_stream
      book_file-Banned file title =
          bind-Keeps Banned (assert_allowed_type_from_path file.bytes allowed_book_labels)
            (λ label.
              store_stream book_file file title
                (or_else (mime_for_label label) "application/octet-stream"))
            (assert-Banned file.bytes allowed_book_labels)
            (λ label.
              let mime = or_else (mime_for_label label) "application/octet-stream" in
              catch-Keeps Banned (provider.store_stream book_file file title mime) (λ e. throw e)
                (kept (provider.store_stream book_file file title mime)
                  (apart.stream book_file file title mime))
                (λ e w h. h))

      jpeg-Banned : (buffer : List ℕ) (known : Bool) → Keeps Banned (jpeg_or_same buffer known)
      jpeg-Banned buffer true = λ w h. h
      jpeg-Banned buffer false = λ w h. h

      optimize-Banned : (buffer : List ℕ) → Keeps Banned (resize_and_optimize buffer)
      unfolding resize_and_optimize
      optimize-Banned buffer =
          catch-Keeps Banned
            (request (λ n. library.metadata_format n buffer) >>= jpeg_or_same buffer)
            (λ e. pure buffer)
            (bind-Keeps Banned (request (λ n. library.metadata_format n buffer))
              (jpeg_or_same buffer) (λ w h. h) (jpeg-Banned buffer))
            (λ e w h. h)

      pub cover-Banned : (cover : Upload) (title : String) → Keeps Banned (upload_cover cover title)
      unfolding upload_cover store_file
      cover-Banned cover title =
          let name = String.◌++◌ title "-cover" in
          let jpeg : List ℕ → Upload =
            λ buffer. record cover { bytes = buffer; mimetype = "image/jpeg" } in
          let put : List ℕ → Action String = λ buffer. store_file cover_file (jpeg buffer) name in
          bind-Keeps Banned (assert_allowed_type_from_path cover.bytes allowed_image_labels)
            (λ label. resize_and_optimize cover.bytes >>= put)
            (assert-Banned cover.bytes allowed_image_labels)
            (λ label.
              bind-Keeps Banned (resize_and_optimize cover.bytes) put (optimize-Banned cover.bytes)
                (λ buffer.
                  let file = jpeg buffer in
                  catch-Keeps Banned (provider.store_file cover_file file name) (λ e. throw e)
                    (kept (provider.store_file cover_file file name)
                      (apart.file cover_file file name))
                    (λ e w h. h)))
