-- ===== src/Storage/R2.antt =====
-- src/storage/providers/r2/r2.service.ts: books in a private bucket under their key, covers and
-- avatars in a public one under a URL. The S3 client and JavaScript's text functions are parameters.
pub mod Url
pub mod Tidy
use Prim.Native.String
use Prim.Native.Char.{code}
use nadbooks_backend.Prelude.{
  ℕ, String, Bool, true, false, ◌==◌, ◌&&◌, not, Option, none, some, ◌∷◌, or_else, find_many, leb,
  eqb, if◌then◌else◌,
}
use nadbooks_backend.Effects.{
  World, Result, Action, Void, Bucket, private, public, StoredObject, pure, ask, request, ◌>>=◌,
  ◌>>◌, modify,
}
use nadbooks_backend.Storage.{FileType, book_file, cover_file, avatar_file, Upload, Provider}

-- `accepts` is the answer of the S3 client to a `send`; `last_part` is `split('.').pop()`.
pub record R2 : Type 0 where
  pub accepts : ℕ → Result Void
  pub presign : ℕ → String → ℕ → Result String
  pub slug : String → String
  pub ulid : ℕ → String
  pub last_part : String → String
  pub to_lower_case : String → String
  pub public_base_url : String

abbrev pub ext_by_mime : String → Option String
ext_by_mime mime =
    if mime == "image/jpeg"
    then some "jpg"
    else if mime == "image/png"
    then some "png"
    else if mime == "image/webp"
    then some "webp"
    else if mime == "application/pdf"
    then some "pdf"
    else if mime == "application/epub+zip"
    then some "epub"
    else none

abbrev pub prefix_by_type : FileType → String
prefix_by_type book_file = "books"
prefix_by_type cover_file = "covers"
prefix_by_type avatar_file = "avatars"

abbrev pub bucket_of : FileType → Bucket
bucket_of book_file = private
bucket_of _ = public

abbrev pub same_bucket : Bucket → Bucket → Bool
same_bucket private private = true
same_bucket public public = true
same_bucket _ _ = false

abbrev pub is_object : Bucket → String → StoredObject → Bool
is_object bucket key object = same_bucket object.bucket bucket && (object.key == key)

abbrev pub put_object : Bucket → String → World → World
put_object bucket key w = record w { objects = (record { bucket = bucket; key = key }) ∷ w.objects }

abbrev pub drop_object : Bucket → String → World → World
drop_object bucket key w = record w {
  objects = find_many (λ o. not (is_object bucket key o)) w.objects;
}

-- `startsWith(prefix)`, with what stands behind the prefix.
unfoldable pub after_prefix : String → String → Option String
after_prefix String.[] text = some text
after_prefix (String.◌∷◌ c prefix) String.[] = none
after_prefix (String.◌∷◌ c prefix) (String.◌∷◌ d text) =
    let rest = after_prefix prefix text in if eqb (code c) (code d) then rest else none

abbrev pub behind_first : String → String
behind_first String.[] = ""
behind_first (String.◌∷◌ c text) = text

-- `slice(prefix.length + 1)` of a text that starts with the prefix.
unfoldable pub strip_prefix : String → String → Option String
unfolding after_prefix
strip_prefix prefix text = elim (after_prefix prefix text) [
  | none ↦ none
  | some rest ↦ some (behind_first rest)
]

module _ ⦃r2 : R2⦄ where
  abbrev ext_of_part : String → String
  ext_of_part part =
      if not (part == "") && leb (String.count part) 5 then r2.to_lower_case part else "bin"

  abbrev ext_of_name : Option String → String
  ext_of_name none = "bin"
  ext_of_name (some name) = ext_of_part (r2.last_part name)

  abbrev pub ext_for : Upload → String
  ext_for file = or_else (ext_by_mime file.mimetype) (ext_of_name file.original_name)

  unfoldable pub build_key : FileType → String → String → String → String
  build_key type name ext id = String.◌++◌ (prefix_by_type type) (
      String.◌++◌ "/"
        (String.◌++◌ (r2.slug name) (String.◌++◌ "-" (String.◌++◌ id (String.◌++◌ "." ext)))))

  unfoldable pub public_url : String → String
  public_url key = String.◌++◌ r2.public_base_url (String.◌++◌ "/" key)

  abbrev pub reference_of : Bucket → String → String
  reference_of private key = key
  reference_of public key = public_url key

  unfoldable pub store : FileType → String → String → Action String
  unfolding build_key public_url
  store type name ext = ask r2.ulid >>= λ id.
      let key = build_key type name ext id in
      request r2.accepts
      >> modify (put_object (bucket_of type) key)
      >> pure (reference_of (bucket_of type) key)

  unfoldable pub store_file : FileType → Upload → String → Action String
  unfolding store
  store_file type file name = store type name (ext_for file)

  unfoldable pub store_stream : FileType → Upload → String → String → Action String
  unfolding store
  store_stream type stream name content_type =
      store type name (or_else (ext_by_mime content_type) "bin")

  unfoldable pub get_signed_url : String → ℕ → Action String
  get_signed_url key ttl = request (λ n. r2.presign n key ttl)

  -- A reference that starts with the public base URL names a public object.
  abbrev pub target : String → Option String → Bucket × String
  target reference none = (private, reference)
  target reference (some key) = (public, key)

  unfoldable pub strip_base : String → Option String
  unfolding strip_prefix
  strip_base reference = strip_prefix r2.public_base_url reference

  unfoldable pub delete_file : String → Action Void
  unfolding strip_base
  delete_file reference =
      let (bucket, key) = target reference (strip_base reference) in
      request r2.accepts >> modify (drop_object bucket key)

  abbrev pub r2_provider : Provider
  r2_provider = record {
    store_file = store_file;
    store_stream = store_stream;
    get_signed_url = get_signed_url;
    delete_file = delete_file;
  }
