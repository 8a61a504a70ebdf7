-- ===== src/Books.antt =====
-- src/books/books.service.ts: what its parts share. The database's sort, JSON.stringify of the
-- filters, dates and sharp are parameters.
pub mod Reading
pub mod Cache
pub mod Access
pub mod Uploads
pub mod Moderation
pub mod Banned
use nadbooks_backend.Prelude.{
  ℕ, String, Bool, ◌==◌, ◌&&◌, ◌||◌, not, Option, none, some, List, find_first, update_first,
}
use nadbooks_backend.Prelude.Int.{ℤ}
use nadbooks_backend.Schema.{Db, Book, BookStatus, Role}
use nadbooks_backend.Effects.{
  Env, same_text, World, Result, BookView, Action, not_found, record_not_found, pure, gets,
  or_throw, ◌>>=◌, ◌>>◌, modify,
}
use nadbooks_backend.Genre.{find_genre}

pub data BookSort : Type 0 where
  popularity newest price_low price_high alphabetical : BookSort

pub record BookFilter : Type 0 where
  pub limit : Option ℕ
  pub skip : Option ℕ
  pub genre_id : Option String
  pub genre : Option String
  pub min_price : Option ℤ
  pub max_price : Option ℤ
  pub is_mature : Option Bool
  pub include_hidden : Bool
  pub sort_by : Option BookSort

-- The configuration, and what the service takes from libraries. `sorted` answers for the order in
-- which the database lists the rows; `metadata_format` and `to_jpeg` are calls of sharp.
pub record Library : Type 0 where
  pub cache_ttl : ℕ
  pub download_url_ttl : Option ℕ
  pub filters_json : BookFilter → String
  pub sorted : ℕ → Option BookSort → List Book → List Book
  pub metadata_format : ℕ → List ℕ → Result Bool
  pub to_jpeg : ℕ → List ℕ → Result (List ℕ)

abbrev pub has_id : String → Book → Bool
has_id id book = book.id == id

-- `{ id }`, with `isDeleted: false` unless hidden books are included.
abbrev pub shown : Bool → Book → Bool
shown include_hidden book = include_hidden || not book.is_deleted

abbrev pub with_genre : Db → Book → BookView
with_genre d book = record { row = book; genre = find_genre book.genre_id d }

abbrev pub with_genre_opt : Db → Option Book → Option BookView
with_genre_opt d none = none
with_genre_opt d (some book) = some (with_genre d book)

-- `serializeBook`: the empty text stands for the field that is removed.
abbrev pub without_url : Book → Book
without_url book = record book { book_url = "" }

abbrev pub serialize_book : BookView → BookView
serialize_book view = record view { row = without_url view.row }

unfoldable pub find_book : String → Db → Option Book
find_book id d = find_first (has_id id) d.books

unfoldable pub set_book : String → (Book → Book) → Db → Db
set_book id f d = record d { books = update_first (has_id id) f d.books }

abbrev pub put_book : String → (Book → Book) → World → World
put_book id f w = record w { db = set_book id f w.db }

-- `book.update({ where: { id }, data })`
unfoldable pub update_row : String → (Book → Book) → Action Book
update_row id f = do
  book ← or_throw (← gets (λ w. find_book id w.db)) record_not_found
  modify (put_book id f)
  pure (f book)

unfoldable pub get_book_by_id : String → Bool → Action (Option BookView)
get_book_by_id id include_hidden = gets (λ w.
    with_genre_opt w.db
      (find_first (λ book. has_id id book && shown include_hidden book) w.db.books))

unfoldable pub get_book_by_title : ⦃env : Env⦄ → String → Bool → Action (Option Book)
get_book_by_title title include_hidden =
    gets
      (λ w. find_first (λ book. same_text book.title title && shown include_hidden book) w.db.books)

abbrev pub of_author : String → String → Bool → Book → Bool
of_author id author_id include_hidden book =
    has_id id book && (book.author_id == author_id) && shown include_hidden book

unfoldable pub find_author_book_by_id : String → String → Bool → Action Book
find_author_book_by_id id author_id include_hidden =
    gets (λ w. find_first (of_author id author_id include_hidden) w.db.books) >>= λ book.
    or_throw book (not_found "Not Found")

abbrev pub is_admin : Role → Bool
is_admin Role.user = Bool.false
is_admin _ = Bool.true
