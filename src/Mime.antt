-- ===== src/Mime.antt =====
-- src/common/mime.ts. A file is the list of its bytes.
pub mod Head
use Prim.Native.Nat.{◌%◌}
use Prim.Native.String
use nadbooks_backend.Prelude.{
  ℕ, suc, String, Bool, true, false, ◌==◌, ◌&&◌, ◌||◌, not, Option, none, some, List, [], ◌∷◌, leb,
  length, drop, take, begins, is_in, if◌then◌else◌,
}
use nadbooks_backend.Effects.{Action, bad_request, pure, throw}

-- "Enough bytes to cover every signature we check".
abbrev pub head_bytes : ℕ
head_bytes = 64

abbrev pub allowed_book_labels : List String
allowed_book_labels = "pdf" ∷ "epub" ∷ []

abbrev pub allowed_image_labels : List String
allowed_image_labels = "jpeg" ∷ "png" ∷ "webp" ∷ []

abbrev pub mime_for_label : String → Option String
mime_for_label label =
    if label == "pdf"
    then some "application/pdf"
    else if label == "epub"
    then some "application/epub+zip"
    else if label == "jpeg"
    then some "image/jpeg"
    else if label == "png"
    then some "image/png"
    else if label == "webp"
    then some "image/webp"
    else none

abbrev pub itself : ℕ → ℕ
itself b = b

-- `toString('ascii')` drops the highest bit of each byte.
abbrev pub ascii : ℕ → ℕ
ascii b = b % 128

abbrev pub pdf_signature : List ℕ
pdf_signature = 37 ∷ 80 ∷ 68 ∷ 70 ∷ []

abbrev pub png_signature : List ℕ
png_signature = 137 ∷ 80 ∷ 78 ∷ 71 ∷ 13 ∷ 10 ∷ 26 ∷ 10 ∷ []

abbrev pub jpeg_signature : List ℕ
jpeg_signature = 255 ∷ 216 ∷ 255 ∷ []

abbrev pub zip_signature : List ℕ
zip_signature = 80 ∷ 75 ∷ 3 ∷ 4 ∷ []

-- "RIFF" and "WEBP"
abbrev pub riff : List ℕ
riff = 82 ∷ 73 ∷ 70 ∷ 70 ∷ []

abbrev pub webp : List ℕ
webp = 87 ∷ 69 ∷ 66 ∷ 80 ∷ []

-- "application/epub+zip"
abbrev pub epub_type : List ℕ
epub_type =
    97 ∷ 112 ∷ 112 ∷ 108 ∷ 105 ∷ 99 ∷ 97 ∷ 116 ∷ 105 ∷ 111 ∷ 110 ∷ 47 ∷ 101 ∷ 112 ∷ 117 ∷ 98 ∷ 43
    ∷ 122 ∷ 105 ∷ 112 ∷ []

abbrev pub is_webp : List ℕ → Bool
is_webp b = leb 12 (length b) && (begins ascii riff b && begins ascii webp (drop 8 b))

unfoldable pub detect_label : List ℕ → Option String
detect_label b =
    if begins itself pdf_signature b
    then some "pdf"
    else if begins itself png_signature b
    then some "png"
    else if begins itself jpeg_signature b
    then some "jpeg"
    else if is_webp b
    then some "webp"
    else if begins itself zip_signature b && begins ascii epub_type (drop 30 b)
    then some "epub"
    else none

-- `allowedLabels.join(', ')`
abbrev pub join : List String → String
join [] = ""
join (l ∷ []) = l
join (l ∷ ls) = String.◌++◌ l (String.◌++◌ ", " (join ls))

abbrev pub quoted : Option String → String
quoted none = "(unrecognized)"
quoted (some label) = String.◌++◌ "'" (String.◌++◌ label "'")

abbrev pub not_allowed : Option String → List String → String
not_allowed label allowed =
    String.◌++◌ "File content type "
      (String.◌++◌ (quoted label) (String.◌++◌ " is not allowed. Allowed: " (join allowed)))

abbrev pub allowed_or_throw : Option String → List String → Action String
allowed_or_throw none allowed = throw (bad_request (not_allowed none allowed))
allowed_or_throw (some label) allowed =
    if is_in label allowed
    then pure label
    else throw (bad_request (not_allowed (some label) allowed))

unfoldable pub assert_allowed_type : List ℕ → List String → Action String
unfolding detect_label
assert_allowed_type bytes allowed = allowed_or_throw (detect_label bytes) allowed

abbrev pub read_head : List ℕ → List ℕ
read_head file = take head_bytes file

unfoldable pub assert_allowed_type_from_path : List ℕ → List String → Action String
unfolding assert_allowed_type
assert_allowed_type_from_path file allowed = assert_allowed_type (read_head file) allowed
