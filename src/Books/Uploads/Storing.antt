-- ===== src/Books/Uploads/Storing.antt =====
-- What an upload has put into the object store, whether it returns or throws.
use Prim.Native.String
use mathlib.Core.Path.{subst}
use nadbooks_backend.Prelude.{String, ◌≡◌, sym, ap, ◌∙◌, List, ◌∷◌, inl, inr, or_else}
use nadbooks_backend.Effects.{World, Env, Result, Action, StoredObject, ok, err, throw, ◌>>=◌}
use nadbooks_backend.Effects.Laws.{Keeps, Result-cases, bind-ok, bind-err, catch-ok, catch-err}
use nadbooks_backend.Storage.{
  Provider, Upload, book_file, cover_file, FileType, store_file, store_stream,
}
use nadbooks_backend.Mime.{
  assert_allowed_type_from_path, allowed_book_labels, allowed_image_labels, mime_for_label,
}
use nadbooks_backend.Books.{Library}
use nadbooks_backend.Books.Uploads.{resize_and_optimize, upload_cover, upload_book_file}
use nadbooks_backend.Books.Uploads.RollBack.{Tidy, Same}
use nadbooks_backend.Books.Uploads.Quiet.{assert-Same, resize-Same}
use nadbooks_backend.Books.Uploads.Orphans.{Stored}

module _ ⦃provider : Provider⦄ (tidy : Tidy provider) where
  -- What an upload has put there when it ends.
  abbrev pub Put : List StoredObject → Result String → World → Type 0
  Put objects (ok reference) w = Stored tidy objects reference w
  Put objects (err e) w = w.objects ≡ objects

  abbrev pub Puts : List StoredObject → Action String → Type 0
  Puts objects m = (w : World) → w.objects ≡ objects → Put objects (m w).0 (m w).1

  quiet-Puts :
      {A : Type 0} (objects : List StoredObject) (m : Action A) (f : A → Action String)
      → Keeps (Same objects) m
      → ((a : A) → Puts objects (f a))
      → Puts objects (m >>= f)
  quiet-Puts objects m f keeps pf w h = elim (Result-cases (m w).0) [
    | inl (a, returned) ↦
        subst (λ (r : Result String × World). Put objects r.0 r.1) (sym (bind-ok m f w a returned))
          (pf a (m w).1 (keeps w h))
    | inr (e, thrown) ↦
        subst (λ (r : Result String × World). Put objects r.0 r.1) (sym (bind-err m f w e thrown))
          (keeps w h)
  ]

  store_file-Puts :
      (objects : List StoredObject) (type : FileType) (file : Upload) (name : String)
      → Puts objects (store_file type file name)
  unfolding store_file
  store_file-Puts objects type file name w h =
      elim (Result-cases (provider.store_file type file name w).0) [
        | inl (reference, up) ↦
            let v = (provider.store_file type file name w).1 in
            let (o, there, named) =
              tidy.file_stored type file name reference w v (ap (λ r. (r, v)) up) in
            subst (λ (r : Result String × World). Put objects r.0 r.1)
              (sym (catch-ok (provider.store_file type file name) (λ e. throw e) w reference up))
              (o, there ∙ ap (λ l. o ∷ l) h, named)
        | inr (e, failed) ↦
            let v = (provider.store_file type file name w).1 in
            subst (λ (r : Result String × World). Put objects r.0 r.1)
              (sym (catch-err (provider.store_file type file name) (λ e. throw e) w e failed))
              (tidy.file_failed type file name e w v (ap (λ r. (r, v)) failed) ∙ h)
      ]

  store_stream-Puts :
      (objects : List StoredObject) (type : FileType) (file : Upload) (name mime : String)
      → Puts objects (store_stream type file name mime)
  unfolding store_stream
  store_stream-Puts objects type file name mime w h =
      elim (Result-cases (provider.store_stream type file name mime w).0) [
        | inl (reference, up) ↦
            let v = (provider.store_stream type file name mime w).1 in
            let (o, there, named) =
              tidy.stream_stored type file name mime reference w v (ap (λ r. (r, v)) up) in
            subst (λ (r : Result String × World). Put objects r.0 r.1)
              (sym (
                catch-ok (provider.store_stream type file name mime) (λ e. throw e) w reference up))
              (o, there ∙ ap (λ l. o ∷ l) h, named)
        | inr (e, failed) ↦
            let v = (provider.store_stream type file name mime w).1 in
            subst (λ (r : Result String × World). Put objects r.0 r.1)
              (sym
                (catch-err (provider.store_stream type file name mime) (λ e. throw e) w e failed))
              (tidy.stream_failed type file name mime e w v (ap (λ r. (r, v)) failed) ∙ h)
      ]

  module _ ⦃env : Env⦄ ⦃library : Library⦄ where
    pub upload_cover-Puts :
        (objects : List StoredObject) (cover : Upload) (title : String)
        → Puts objects (upload_cover cover title)
    unfolding upload_cover
    upload_cover-Puts objects cover title =
        quiet-Puts objects (assert_allowed_type_from_path cover.bytes allowed_image_labels) _
          (assert-Same objects cover.bytes allowed_image_labels)
          (λ label.
            quiet-Puts objects (resize_and_optimize cover.bytes) _ (resize-Same objects cover.bytes)
              (λ buffer.
                store_file-Puts objects cover_file
                  (record cover { bytes = buffer; mimetype = "image/jpeg" })
                  (String.◌++◌ title "-cover")))

    pub upload_book_file-Puts :
        (objects : List StoredObject) (file : Upload) (title : String)
        → Puts objects (upload_book_file file title)
    unfolding upload_book_file
    upload_book_file-Puts objects file title =
        quiet-Puts objects (assert_allowed_type_from_path file.bytes allowed_book_labels) _
          (assert-Same objects file.bytes allowed_book_labels)
          (λ label.
            store_stream-Puts objects book_file file title
              (or_else (mime_for_label label) "application/octet-stream"))
