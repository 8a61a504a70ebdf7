-- ===== src/Books/Uploads/OnR2.antt =====
-- The R2 provider is what the roll-back of uploads asks for.
use nadbooks_backend.Prelude.{
  ℕ, suc, String, Bool, ◌≡◌, refl, ap, ◌∙◌, true, none, arith, inl, inr, eq_self, find_many, not,
  ◌∷◌, or_else,
}
use nadbooks_backend.Effects.{World, Error, ok, err, Bucket, private, public, StoredObject}
use nadbooks_backend.Storage.{FileType}
use nadbooks_backend.Storage.R2.{
  R2, r2_provider, store, store_file, store_stream, delete_file, bucket_of, build_key, is_object,
  target, strip_base, ext_for, ext_by_mime,
}
use nadbooks_backend.Storage.R2.Tidy.{store_ok, key_at, target_of_reference}
use nadbooks_backend.Books.Uploads.RollBack.{Tidy}
use nadbooks_backend.Books.Banned.Files.{Apart}
use nadbooks_backend.Effects.Laws.{Result-cases}

module _ ⦃r2 : R2⦄ where
  -- What a reference names.
  abbrev named : String → StoredObject → Bool
  named reference o =
      let (bucket, key) = target reference (strip_base reference) in is_object bucket key o

  store_books :
      (type : FileType) (name ext : String) (w : World)
      → (store type name ext w).1.db.books ≡ w.db.books
  unfolding store
  store_books type name ext w = elim (Result-cases (r2.accepts (suc w.step))) [
    | inl (yes_put, put) ↦ ground (arith, put)
    | inr (e, refused) ↦ ground (arith, refused)
  ]

  delete_books :
      (reference : String) (w : World) → (delete_file reference w).1.db.books ≡ w.db.books
  unfolding delete_file
  delete_books reference w = elim (Result-cases (r2.accepts w.step)) [
    | inl (yes_drop, drop) ↦ ground (arith, drop)
    | inr (e, refused) ↦ ground (arith, refused)
  ]

  -- R2 leaves the table of books alone.
  pub r2-Apart : Apart r2_provider
  unfolding store_file store_stream
  r2-Apart = record {
    file = λ type file name w. store_books type name (ext_for file) w;
    stream = λ type file name mime w. store_books type name (or_else (ext_by_mime mime) "bin") w;
    deletion = delete_books;
  }

  is_object_self :
      (bucket : Bucket) (key : String)
      → is_object bucket key (record { bucket = bucket; key = key }) ≡ true
  is_object_self private key = rw (eq_self key) refl
  is_object_self public key = rw (eq_self key) refl

  module _ (accepts : (n : ℕ) → r2.accepts n ≡ ok tt)
      (keys : (type : FileType) (name ext id : String)
        → strip_base (build_key type name ext id) ≡ none) where
    stored :
        (type : FileType) (name ext reference : String) (w w' : World)
        → store type name ext w ≡ (ok reference, w')
        → (o : StoredObject) × (w'.objects ≡ o ∷ w.objects) × (named reference o ≡ true)
    stored type name ext reference w w' done =
        let key = key_at type name ext w in
        let bucket = bucket_of type in
        let (same, there) = store_ok type name ext reference w w' done in
        let found =
          ap (λ r. target r (strip_base r)) same
          ∙ target_of_reference bucket key (keys type name ext (r2.ulid w.step)) in
        (
          record { bucket = bucket; key = key },
          there,
          ap (λ t. is_object t.0 t.1 (record { bucket = bucket; key = key })) found
              ∙ is_object_self bucket key,
        )

    failed :
        (type : FileType) (name ext : String) (e : Error) (w w' : World)
        → store type name ext w ≡ (err e, w')
        → w'.objects ≡ w.objects
    unfolding store
    failed type name ext e w w' done = absurd (ground (arith, done, accepts (suc w.step)))

    dropped :
        (reference : String) (w : World)
        → (delete_file reference w).1.objects ≡ find_many (λ o. not (named reference o)) w.objects
    unfolding delete_file
    dropped reference w = ground (arith, accepts w.step)

    -- Where no call of the S3 client fails, and the base URL is told from keys, R2 is tidy.
    pub r2-Tidy : Tidy r2_provider
    unfolding store_file store_stream
    r2-Tidy = record {
      names = named;
      file_stored =
          λ type file name reference w w' done. stored type name (ext_for file) reference w w' done;
      file_failed = λ type file name e w w' done. failed type name (ext_for file) e w w' done;
      stream_stored = λ type file name mime reference w w' done.
          stored type name (or_else (ext_by_mime mime) "bin") reference w w' done;
      stream_failed = λ type file name mime e w w' done.
          failed type name (or_else (ext_by_mime mime) "bin") e w w' done;
      deleted = dropped;
    }
