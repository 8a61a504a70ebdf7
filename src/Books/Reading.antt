-- ===== src/Books/Reading.antt =====
-- Reading books, the cache, downloads and bookmarks.
use Prim.Native.String
use nadbooks_backend.Prelude.{
  ℕ, zero, suc, String, Bool, true, false, ◌==◌, ◌&&◌, ◌||◌, not, Option, none, some, List, ◌∷◌,
  map, find_first, find_many, is_some, or_else, ltb, length, page, if◌then◌else◌,
}
use nadbooks_backend.Prelude.Int.{ℤ, leb_ℤ}
use nadbooks_backend.Schema.{
  Db, Book, BookStatus, BookBookmark, Order, OrderBook, OrderStatus, same_book_status,
}
use nadbooks_backend.Effects.{
  World, Env, Value, BookView, Action, count, book, books, external, not_found, forbidden,
  record_not_found, unique_violation, pure, gets, or_throw, ask, ◌>>=◌, ◌>>◌, throw_if, modify,
}
use nadbooks_backend.Redis.{get, set}
use nadbooks_backend.Users.Store.{find_user}
use nadbooks_backend.Genre.{find_by_name}
use nadbooks_backend.Storage.{Provider, get_signed_url}
use nadbooks_backend.Auth.Crypto.{JwtPayload}
use nadbooks_backend.Books.{
  BookFilter, Library, newest, with_genre, serialize_book, find_book, get_book_by_id, is_admin,
}

unfoldable pub book_key : String → String
book_key id = String.◌++◌ "books:id:" id

-- A value that is there and truthy.
abbrev pub cached : Option Value → Option Value
cached none = none
cached (some (count zero)) = none
cached (some v) = some v

-- `limit || 20`, `skip || 0`
abbrev pub limit_of : Option ℕ → ℕ
limit_of none = 20
limit_of (some zero) = 20
limit_of (some (suc n)) = suc n

abbrev pub skip_of : Option ℕ → ℕ
skip_of skip = or_else skip 0

-- A text that is there and truthy.
abbrev given : Option String → Option String
given none = none
given (some text) = if text == "" then none else some text

abbrev in_genre : ⦃env : Env⦄ → Db → BookFilter → Book → Bool
in_genre d filter row = elim (given filter.genre_id) [
  | some id ↦ row.genre_id == id
  | none ↦ elim (given filter.genre) [
    | none ↦ true
    | some name ↦ elim (find_by_name name d) [ none ↦ false | some g ↦ row.genre_id == g.id ]
  ]
]

abbrev at_least : Option ℤ → ℤ → Bool
at_least none price = true
at_least (some low) price = leb_ℤ low price

abbrev at_most : Option ℤ → ℤ → Bool
at_most none price = true
at_most (some high) price = leb_ℤ price high

abbrev as_mature : Option Bool → Bool → Bool
as_mature none mature = true
as_mature (some true) mature = mature
as_mature (some false) mature = not mature

-- The `where` of `getBooks`.
abbrev pub fits : ⦃env : Env⦄ → Db → BookFilter → Book → Bool
fits d filter row =
    in_genre d filter row
    && (as_mature filter.is_mature row.is_mature
        && ((at_least filter.min_price row.price && at_most filter.max_price row.price)
            && (filter.include_hidden
                || (not row.is_deleted && same_book_status row.status BookStatus.approved))))

abbrev pub views : Db → List Book → List BookView
views d rows = map (λ row. serialize_book (with_genre d row)) rows

abbrev pub of_owner : String → Bool → Book → Bool
of_owner id deleted row =
    (row.author_id == id) && (if deleted then row.is_deleted else not row.is_deleted)

-- PAID or COMPLETED.
abbrev pub is_settled : OrderStatus → Bool
is_settled OrderStatus.paid = true
is_settled OrderStatus.completed = true
is_settled _ = false

abbrev pub settled_for : String → String → Order → Bool
settled_for user_id order_id order =
    (order.id == order_id) && ((order.user_id == user_id) && is_settled order.status)

-- An item of the book in a settled order of the user.
abbrev pub bought : Db → String → String → OrderBook → Bool
bought d user_id book_id item =
    (item.book_id == book_id) && is_some (find_first (settled_for user_id item.order_id) d.orders)

unfoldable pub has_purchased : String → String → Action Bool
has_purchased user_id book_id =
    gets (λ w. ltb 0 (length (find_many (bought w.db user_id book_id) w.db.order_books)))

abbrev pub marks : String → String → BookBookmark → Bool
marks user_id book_id mark = (mark.user_id == user_id) && (mark.book_id == book_id)

abbrev pub set_bookmarks : List BookBookmark → World → World
set_bookmarks rows w = record w { db = record w.db { book_bookmarks = rows } }

unfoldable pub remove_book_from_bookmark : String → String → Action BookBookmark
remove_book_from_bookmark user_id book_id = do
  mark ←
      or_throw (← gets (λ w. find_first (marks user_id book_id) w.db.book_bookmarks))
        record_not_found
  modify (λ w. set_bookmarks (find_many (λ m. not (marks user_id book_id m)) w.db.book_bookmarks) w)
  pure mark

module _ ⦃env : Env⦄ ⦃library : Library⦄ where
  -- The listings are kept under the JSON of the filters.
  unfoldable pub list_key : BookFilter → String
  list_key filter = String.◌++◌ "books:list:" (library.filters_json filter)

  unfoldable pub fill_list : BookFilter → Action Value
  unfolding set list_key
  fill_list filter = do
    rows ← ask (λ n. n) >>= λ n.
        gets (λ w. library.sorted n filter.sort_by (find_many (fits w.db filter) w.db.books))
    found ←
        gets
          (λ w. books (views w.db (page (some (limit_of filter.limit)) (skip_of filter.skip) rows)))
    set (list_key filter) found library.cache_ttl
    pure found

  abbrev pub cached_or : Option Value → Action Value → Action Value
  cached_or none m = m
  cached_or (some v) m = pure v

  unfoldable pub get_books : BookFilter → Action Value
  unfolding get fill_list list_key
  get_books filter = get (list_key filter) >>= λ v. cached_or (cached v) (fill_list filter)

  unfoldable pub get_user_books : String → Option ℕ → Option ℕ → Action (List BookView)
  get_user_books user_id limit skip = do
    n ← ask (λ n. n)
    gets (λ w. views w.db (
        page (some (limit_of limit)) (skip_of skip)
          (library.sorted n (some newest) (find_many (of_owner user_id false) w.db.books))))

  unfoldable pub keep_view : String → Option BookView → Action Value
  unfolding set
  keep_view id view = do
    found ← or_throw view (not_found "Book not found")
    set (book_key id) (book (serialize_book found)) library.cache_ttl
    pure (book (serialize_book found))

  -- The key of the cache does not tell hidden books from others.
  unfoldable pub find_book_by_id : String → Bool → Action Value
  unfolding get get_book_by_id keep_view
  find_book_by_id id include_hidden = get (book_key id) >>= λ v.
      cached_or (cached v) (get_book_by_id id include_hidden >>= keep_view id)

  unfoldable pub bookmark_book : String → String → Action BookBookmark
  unfolding find_book_by_id
  bookmark_book user_id book_id = do
    found ← find_book_by_id book_id false
    known ← gets (λ w. is_some (find_user user_id w.db))
    throw_if (not known) (external "Foreign key constraint violated")
    taken ← gets (λ w. is_some (find_first (marks user_id book_id) w.db.book_bookmarks))
    throw_if taken unique_violation
    let mark : BookBookmark = record { user_id = user_id; book_id = book_id }
    modify (λ w. set_bookmarks (mark ∷ w.db.book_bookmarks) w)
    pure mark

-- The rows of the books that a user has marked.
unfoldable pub get_user_bookmarked_books :
    String → Option ℕ → Option ℕ → Action (List (Option Book))
unfolding find_book
get_user_bookmarked_books user_id limit skip = gets (λ w.
    map (λ mark. find_book mark.book_id w.db)
      (page (some (limit_of limit)) (skip_of skip)
        (find_many (λ mark. mark.user_id == user_id) w.db.book_bookmarks)))

unfoldable pub get_deleted_books : String → Action (List BookView)
get_deleted_books author_id =
    gets (λ w. views w.db (find_many (of_owner author_id true) w.db.books))

-- The author, an admin by the token's role, or who bought the book.
unfoldable pub check_access : JwtPayload → Book → Action Unit
unfolding has_purchased
check_access user row =
    if (row.author_id == user.sub) || is_admin user.role
    then pure tt
    else (has_purchased user.sub row.id >>= λ purchased.
        throw_if (not purchased) (forbidden "You do not have access to this book"))

module _ ⦃library : Library⦄ ⦃provider : Provider⦄ where
  unfoldable pub sign_url : Book → Action (String × ℕ)
  unfolding get_signed_url
  sign_url row =
      let ttl = or_else library.download_url_ttl 300 in
      get_signed_url row.book_url ttl >>= λ url. pure (url, ttl)

  unfoldable pub get_download_url : String → JwtPayload → Action (String × ℕ)
  unfolding get_book_by_id check_access sign_url
  get_download_url id user = do
    view ← or_throw (← get_book_by_id id false) (not_found "Book not found")
    check_access user view.row
    sign_url view.row
