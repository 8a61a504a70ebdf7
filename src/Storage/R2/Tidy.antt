-- ===== src/Storage/R2/Tidy.antt =====
-- What was stored can be deleted by the reference that storing it gave.
use nadbooks_backend.Prelude.{
  suc, String, Bool, ◌≡◌, refl, ap, ◌∙◌, false, none, List, [], ◌∷◌, arith, inl, inr, find_first,
  find_many, not, eq_self,
}
use nadbooks_backend.Effects.{World, ok, Bucket, private, public, StoredObject}
use nadbooks_backend.Effects.Laws.{Result-cases}
use nadbooks_backend.Storage.{FileType}
use nadbooks_backend.Storage.R2.{
  R2, store, delete_file, reference_of, bucket_of, build_key, public_url, is_object, target,
  strip_base,
}
use nadbooks_backend.Storage.R2.Url.{strip_base-public_url}

-- Filtering changes nothing where no row is filtered out.
find_many-rest :
    {R : Type 0} (p : R → Bool) (rs : List R)
    → find_first p rs ≡ none
    → find_many (λ r. not (p r)) rs ≡ rs
unfolding find_first find_many
find_many-rest p [] h = refl
find_many-rest p (r ∷ rs) h =
    let away : p r ≡ false = ground (arith, h) in
    rw away (ap (λ l. r ∷ l) (find_many-rest p rs (ground (arith, h, away))))

module _ ⦃r2 : R2⦄ where
  -- The key that storing at this step makes.
  abbrev pub key_at : FileType → String → String → World → String
  key_at type name ext w = build_key type name ext (r2.ulid w.step)

  pub store_ok :
      (type : FileType) (name ext reference : String) (w w' : World)
      → store type name ext w ≡ (ok reference, w')
      → (reference ≡ reference_of (bucket_of type) (key_at type name ext w))
        × (w'.objects
            ≡ (record { bucket = bucket_of type; key = key_at type name ext w }) ∷ w.objects)
  unfolding store
  store_ok type name ext reference w w' done = elim (Result-cases (r2.accepts (suc w.step))) [
    | inl (yes_put, put) ↦ (ground (arith, done, put), ground (arith, done, put))
    | inr (e, refused) ↦ absurd (ground (arith, done, refused))
  ]

  delete_ok :
      (reference : String) (w w' : World)
      → delete_file reference w ≡ (ok tt, w')
      → let (bucket, key) = target reference (strip_base reference) in
        w'.objects ≡ find_many (λ o. not (is_object bucket key o)) w.objects
  unfolding delete_file
  delete_ok reference w w' done = elim (Result-cases (r2.accepts w.step)) [
    | inl (yes_drop, dropped) ↦ ground (arith, done, dropped)
    | inr (e, refused) ↦ absurd (ground (arith, done, refused))
  ]

  -- Deleting by the reference finds the bucket and the key again.
  pub target_of_reference :
      (bucket : Bucket) (key : String)
      → strip_base key ≡ none
      → target (reference_of bucket key) (strip_base (reference_of bucket key)) ≡ (bucket, key)
  target_of_reference private key own = ap (λ o. target key o) own
  target_of_reference public key own =
      ap (λ o. target (public_url key) o) (strip_base-public_url key)

  drop_put :
      (bucket : Bucket) (key : String) (objects : List StoredObject)
      → find_first (is_object bucket key) objects ≡ none
      → find_many
          (λ o. not (is_object bucket key o))
          ((record { bucket = bucket; key = key }) ∷ objects)
        ≡ objects
  unfolding find_many
  drop_put private key objects fresh =
      rw (eq_self key) (find_many-rest (is_object private key) objects fresh)
  drop_put public key objects fresh =
      rw (eq_self key) (find_many-rest (is_object public key) objects fresh)

  -- Deleting what was just stored, by the reference that storing it gave, brings the object store
  -- back, whichever bucket the type of file goes to. Assumed: the key is not in use, and it does not
  -- start with the public base URL.
  pub store-delete_file :
      (type : FileType) (name ext reference : String) (w w1 w2 : World)
      → find_first (is_object (bucket_of type) (key_at type name ext w)) w.objects ≡ none
      → strip_base (key_at type name ext w) ≡ none
      → store type name ext w ≡ (ok reference, w1)
      → delete_file reference w1 ≡ (ok tt, w2)
      → w2.objects ≡ w.objects
  store-delete_file type name ext reference w w1 w2 fresh own stored deleted =
      let key = key_at type name ext w in
      let bucket = bucket_of type in
      let (named, there) = store_ok type name ext reference w w1 stored in
      let found = ap (λ r. target r (strip_base r)) named ∙ target_of_reference bucket key own in
      delete_ok reference w1 w2 deleted
      ∙ ap (λ t. find_many (λ o. not (is_object t.0 t.1 o)) w1.objects) found
      ∙ ap (λ l. find_many (λ o. not (is_object bucket key o)) l) there
      ∙ drop_put bucket key w.objects fresh
