-- ===== src/Tests/Stores.antt =====
-- The theorems on uploads and on an object store.
use Prim.Native.String
use Prim.Native.String.{String}
use text.Mathlib.TextLemmas.{cons-append}
use nadbooks_backend.Prelude.{ℕ, ◌≡◌, ap, refl, none, false, [], ◌∷◌, find_first, List}
use nadbooks_backend.Prelude.Int.{pos}
use nadbooks_backend.Effects.{World, ok, err, Error, external}
use nadbooks_backend.Genre.{find_genre}
use nadbooks_backend.Mime.{
  allowed_image_labels, assert_allowed_type, assert_allowed_type_from_path, detect_label,
}
use nadbooks_backend.Mime.Head.{assert_head}
use nadbooks_backend.Storage.{FileType, Upload, book_file, cover_file, avatar_file}
use nadbooks_backend.Storage.R2.{
  R2, r2_provider, store, store_file, store_stream, delete_file, build_key, public_url, strip_base,
  strip_prefix, after_prefix,
}
use nadbooks_backend.Storage.R2.Tidy.{store-delete_file}
use nadbooks_backend.Books.{find_book, get_book_by_title}
use nadbooks_backend.Books.Uploads.{StoreBook, store_book}
use nadbooks_backend.Books.Uploads.RollBack.{NoneNew}
use nadbooks_backend.Books.Uploads.NoOrphans.{store_book_leaves_nothing}
use nadbooks_backend.Books.Uploads.OnR2.{r2-Tidy}
use nadbooks_backend.Users.Store.{find_user}
use nadbooks_backend.Tests.Samples.{sample_env, sample_library, sample_world}

instance abbrev pub sample_r2 : R2
sample_r2 = record {
  accepts = λ n. ok tt;
  presign = λ n key ttl. ok key;
  slug = λ text. text;
  ulid = λ n. "01H";
  last_part = λ name. name;
  to_lower_case = λ text. text;
  public_base_url = "https://cdn";
}

abbrev key_rest : String → String → String → String
key_rest name ext id =
    String.◌++◌ "/" (String.◌++◌ name (String.◌++◌ "-" (String.◌++◌ id (String.◌++◌ "." ext))))

-- No key begins as the base URL does.
keys : (type : FileType) (name ext id : String) → strip_base (build_key type name ext id) ≡ none
unfolding build_key strip_base strip_prefix after_prefix
keys book_file name ext id =
    ap (strip_prefix "https://cdn") (cons-append "b" "ooks" (key_rest name ext id))
keys cover_file name ext id =
    ap (strip_prefix "https://cdn") (cons-append "c" "overs" (key_rest name ext id))
keys avatar_file name ext id =
    ap (strip_prefix "https://cdn") (cons-append "a" "vatars" (key_rest name ext id))

abbrev with_cover : World
with_cover = (store cover_file "title" "jpg" sample_world).1

abbrev cover_key : String
cover_key = "covers/title-01H.jpg"

store-delete_file_example :
    (delete_file "https://cdn/covers/title-01H.jpg" with_cover).1.objects ≡ []
unfolding store delete_file build_key public_url find_first strip_base strip_prefix after_prefix
store-delete_file_example =
    store-delete_file cover_file "title" "jpg" "https://cdn/covers/title-01H.jpg" sample_world
      with_cover (delete_file "https://cdn/covers/title-01H.jpg" with_cover).1 refl refl refl refl

abbrev pdf : List ℕ
pdf = 37 ∷ 80 ∷ 68 ∷ 70 ∷ 45 ∷ []

abbrev png : List ℕ
png = 137 ∷ 80 ∷ 78 ∷ 71 ∷ 13 ∷ 10 ∷ 26 ∷ 10 ∷ []

assert_head_example :
    assert_allowed_type_from_path png allowed_image_labels sample_world
    ≡ assert_allowed_type png allowed_image_labels sample_world
assert_head_example = assert_head png allowed_image_labels sample_world

abbrev upload : List ℕ → Upload
upload bytes = record { bytes = bytes; mimetype = "text/plain"; original_name = none }

abbrev draft : StoreBook
draft = record {
  title = "Draft";
  genre_id = "g1";
  price = pos 5;
  is_mature = false;
  date_authored = 0;
}

-- The author is not in the table, so the row is refused when both uploads are there.
abbrev refused : Error
refused = external "Foreign key constraint violated"

abbrev left_over : World
left_over =
    (store_book ⦃provider = r2_provider⦄ draft (upload pdf) (upload png) "u9" sample_world).1

store_book_fails :
    (store_book ⦃provider = r2_provider⦄ draft (upload pdf) (upload png) "u9" sample_world).0
    ≡ err refused
unfolding store_book get_book_by_title find_genre find_first detect_label store delete_file
    build_key public_url find_book find_user store_file store_stream strip_base strip_prefix
    after_prefix
store_book_fails = refl

store_book_leaves_nothing_example : NoneNew [] left_over.objects
store_book_leaves_nothing_example =
    store_book_leaves_nothing ⦃provider = r2_provider⦄ (r2-Tidy (λ n. refl) keys) draft (upload pdf)
      (upload png) "u9" sample_world refused store_book_fails
