-- ===== src/Books/Uploads/NoOrphans.antt =====
-- `storeBook` leaves no object behind when it fails.

use mathlib.Core.Path.{subst}
use nadbooks_backend.Prelude.{
  String, ◌≡◌, refl, sym, ap, ◌∙◌, true, none, some, List, ◌∷◌, arith, inl, inr, find_first,
}
use nadbooks_backend.Schema.{Book}
use nadbooks_backend.Effects.{World, Env, Error, Result, Action, StoredObject, ok, err, catch}
use nadbooks_backend.Effects.Laws.{Result-cases, catch-ok, catch-err}
use nadbooks_backend.Storage.{Provider, Upload}
use nadbooks_backend.Books.{Library}
use nadbooks_backend.Books.Uploads.{
  StoreBook, upload_cover, upload_book_file, create_row, store_row, store_cover, store_files,
  check_store, store_book, roll_back,
}
use nadbooks_backend.Books.Uploads.RollBack.{Tidy, NoneNew, Safe, Same, bind-Safe, quiet-then}
use nadbooks_backend.Books.Uploads.Quiet.{check_store-Same, create-Same}
use nadbooks_backend.Books.Uploads.Orphans.{
  Stored, Both, roll_back_one-NoneNew, roll_back_two-NoneNew, roll_back_one,
}
use nadbooks_backend.Books.Uploads.Storing.{Put, upload_cover-Puts, upload_book_file-Puts}

module _ ⦃provider : Provider⦄ (tidy : Tidy provider) ⦃env : Env⦄ ⦃library : Library⦄ where
  store_row-Safe :
      (objects : List StoredObject) (dto : StoreBook) (author_id book_url cover_url : String)
      → Safe objects
          (Both tidy objects book_url cover_url)
          (store_row dto author_id book_url cover_url)
  unfolding store_row
  store_row-Safe objects dto author_id book_url cover_url w (c, o, there, named, named') e done =
      let m = create_row dto author_id book_url cover_url in
      let h = roll_back {A = Book} book_url (some cover_url) in
      elim (Result-cases (m w).0) [
        | inl (row, made) ↦ absurd (ground (arith, done, catch-ok m h w row made))
        | inr (x, failed) ↦
            let kept = create-Same (c ∷ o ∷ objects) dto author_id book_url cover_url w there in
            subst (λ (r : Result Book × World). NoneNew objects r.1.objects)
              (sym (catch-err m h w x failed))
              (roll_back_two-NoneNew tidy Book objects book_url cover_url x (m w).1
                (c, o, kept, named, named'))
      ]

  -- The `try` around the cover: what it leaves when it returns, and when it throws.
  abbrev cover_step : StoreBook → Upload → String → Action String
  cover_step dto cover book_url = catch (upload_cover cover dto.title) (roll_back book_url none)

  cover_step-Safe :
      (objects : List StoredObject) (dto : StoreBook) (cover : Upload) (book_url : String)
      → Safe objects (Stored tidy objects book_url) (cover_step dto cover book_url)
  cover_step-Safe objects dto cover book_url w (o, there, named) e done =
      let m = upload_cover cover dto.title in
      let h = roll_back {A = String} book_url none in
      let put = upload_cover-Puts tidy (o ∷ objects) cover dto.title w there in
      elim (Result-cases (m w).0) [
        | inl (url, up) ↦ absurd (ground (arith, done, catch-ok m h w url up))
        | inr (x, failed) ↦
            let kept = subst (λ r. Put tidy (o ∷ objects) r (m w).1) failed put in
            subst (λ (r : Result String × World). NoneNew objects r.1.objects)
              (sym (catch-err m h w x failed))
              (roll_back_one-NoneNew tidy String objects book_url x (m w).1 (o, kept, named))
      ]

  cover_step-Both :
      (objects : List StoredObject) (dto : StoreBook) (cover : Upload) (book_url url : String)
      (w w' : World)
      → Stored tidy objects book_url w
      → cover_step dto cover book_url w ≡ (ok url, w')
      → Both tidy objects book_url url w'
  cover_step-Both objects dto cover book_url url w w' (o, there, named) done =
      let m = upload_cover cover dto.title in
      let h = roll_back {A = String} book_url none in
      let put = upload_cover-Puts tidy (o ∷ objects) cover dto.title w there in
      elim (Result-cases (m w).0) [
        | inl (found, up) ↦
            let run = sym done ∙ catch-ok m h w found up in
            let (c, all, named') = subst (λ r. Put tidy (o ∷ objects) r (m w).1) up put in
            let same : found ≡ url = ground (arith, run) in
            (
              c,
              o,
              ap (λ r. r.1.objects) run ∙ all,
              named,
              subst (λ u. tidy.names u c ≡ true) same named',
            )
        | inr (x, failed) ↦
            let run =
              sym done ∙ catch-err m h w x failed ∙ roll_back_one tidy String book_url x (m w).1 in
            absurd (ground (arith, run))
      ]

  store_cover-Safe :
      (objects : List StoredObject) (dto : StoreBook) (cover : Upload) (author_id book_url : String)
      → Safe objects (Stored tidy objects book_url) (store_cover dto cover author_id book_url)
  unfolding store_cover
  store_cover-Safe objects dto cover author_id book_url =
      bind-Safe objects (Stored tidy objects book_url) (Both tidy objects book_url)
        (cover_step dto cover book_url) (store_row dto author_id book_url)
        (cover_step-Safe objects dto cover book_url)
        (λ w w' url. cover_step-Both objects dto cover book_url url w w')
        (store_row-Safe objects dto author_id book_url)

  store_files-Safe :
      (objects : List StoredObject) (dto : StoreBook) (file cover : Upload) (author_id : String)
      → Safe objects (Same objects) (store_files dto file cover author_id)
  unfolding store_files
  store_files-Safe objects dto file cover author_id =
      bind-Safe objects (Same objects) (Stored tidy objects) (upload_book_file file dto.title)
        (store_cover dto cover author_id)
        (λ w h e failed p absent.
          ap (λ l. find_first p l)
            (subst (λ r. Put tidy objects r (upload_book_file file dto.title w).1) failed
              (upload_book_file-Puts tidy objects file dto.title w h))
          ∙ absent)
        (λ w w' url h run.
          subst (λ (r : Result String × World). Put tidy objects r.0 r.1) run
            (upload_book_file-Puts tidy objects file dto.title w h))
        (store_cover-Safe objects dto cover author_id)

  store_book-Safe :
      (objects : List StoredObject) (dto : StoreBook) (file cover : Upload) (author_id : String)
      → Safe objects (Same objects) (store_book dto file cover author_id)
  unfolding store_book
  store_book-Safe objects dto file cover author_id =
      quiet-then objects (check_store dto file cover)
        (λ label. store_files dto file cover author_id) (check_store-Same objects dto file cover)
        (λ label. store_files-Safe objects dto file cover author_id)

  -- When `storeBook` fails, at whichever step, every object in the store was there before:
  -- the uploads are rolled back. Assumed: the provider is tidy, so no deletion fails.
  pub store_book_leaves_nothing :
      (dto : StoreBook) (file cover : Upload) (author_id : String) (w : World) (e : Error)
      → (store_book dto file cover author_id w).0 ≡ err e
      → NoneNew w.objects (store_book dto file cover author_id w).1.objects
  store_book_leaves_nothing dto file cover author_id w e failed =
      store_book-Safe w.objects dto file cover author_id w refl e failed
