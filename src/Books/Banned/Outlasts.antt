-- ===== src/Books/Banned/Outlasts.antt =====
-- A ban and sequences of requests: an author cannot undo what an administrator has done.
use nadbooks_backend.Prelude.{
  String, ◌≡◌, ◌≢◌, ◌∙◌, ap, refl, sym, false, none, Option, arith, inl, inr, Bool-cases,
  Option-cases, find_first, update_first, eq_iff, eq_self, ◌&&◌, ◌==◌, List, [], ◌∷◌,
}
use nadbooks_backend.Prelude.Distinct.{Distinct, find_first-stronger}
use nadbooks_backend.Schema.{Book, BookStatus}
use nadbooks_backend.Effects.{World, Env, ok}
use nadbooks_backend.Auth.Crypto.{JwtPayload}
use nadbooks_backend.Storage.{Provider, Upload}
use nadbooks_backend.Books.{
  Library, has_id, shown, is_admin, find_book, set_book, update_row, get_book_by_id,
}
use nadbooks_backend.Books.Moderation.{
  deleted_by, reviewed, edited, AdminEdit, delete_book, ban_book, restore_book, review_book,
  admin_update_book,
}
use nadbooks_backend.Books.Moderation.Rows.{review_rows, edit_rows}
use nadbooks_backend.Books.Uploads.Update.{UpdateBook, update_book}
use nadbooks_backend.Books.Banned.{
  escapes, IsBanned, Changes-IsBanned, delete-IsBanned, restore-IsBanned,
}
use nadbooks_backend.Books.Banned.Files.{Apart}
use nadbooks_backend.Books.Banned.Updates.{update-IsBanned}

-- A request that may change the state of a book.
pub data Request : Type 0 where
  deletes : (book_id author_id : String) → Request
  restores : (book_id : String) (user : JwtPayload) → Request
  reviews : (book_id admin_id : String) (status : BookStatus) → Request
  edits : (book_id : String) (payload : AdminEdit) → Request
  updates : (book_id author_id : String) (dto : UpdateBook) (file cover : Option Upload) → Request

-- Who restores is neither an administrator by the token's role nor the one who banned.
abbrev pub IsPlain : String → Request → Type 0
IsPlain admin_id (restores id user) = (is_admin user.role ≡ false) × (user.sub ≢ admin_id)
IsPlain admin_id _ = Unit {0}

abbrev pub AllPlain : String → List Request → Type 0
AllPlain admin_id [] = Unit {0}
AllPlain admin_id (r ∷ rs) = IsPlain admin_id r × AllPlain admin_id rs

-- Where ids are distinct, a ban marks every row of the book.
ban_marks :
    (id admin_id : String) (rows : List Book)
    → Distinct (λ b. b.id) rows
    → find_first (escapes id admin_id) (update_first (has_id id) (deleted_by admin_id) rows) ≡ none
unfolding find_first update_first Distinct
ban_marks id admin_id [] d = refl
ban_marks id admin_id (row ∷ rows) (new, d) = elim (Bool-cases (has_id id row)) [
  | inl here ↦
      let own : row.id ≡ id = (eq_iff row.id id).0 here in
      let others : find_first (has_id id) rows ≡ none =
        ap (λ x. find_first (λ (b : Book). b.id == x) rows) (sym own) ∙ new in
      let rest =
        find_first-stronger (has_id id) (escapes id admin_id) rows others
          (λ b fits. ground (arith, fits)) in
      ground (arith, here, eq_self admin_id, rest)
  | inr away ↦ ground (arith, away, ban_marks id admin_id rows d)
]

ban-IsBanned :
    (id admin_id : String) (w w1 : World) (row : Book)
    → Distinct (λ b. b.id) w.db.books
    → ban_book id admin_id w ≡ (ok row, w1)
    → IsBanned id admin_id w1
unfolding ban_book update_row set_book
ban-IsBanned id admin_id w w1 row d done = elim (Option-cases (find_book id w.db)) [
  | inl gone ↦ absurd (ground (arith, done, gone))
  | inr (first, there) ↦
      let rows : w1.db.books ≡ update_first (has_id id) (deleted_by admin_id) w.db.books =
        ground (arith, done, there) in
      ap (λ l. find_first (escapes id admin_id) l) rows ∙ ban_marks id admin_id w.db.books d
]

-- A banned book is not shown.
banned_unseen :
    (id admin_id : String) (w : World)
    → IsBanned id admin_id w
    → (get_book_by_id id false w).0 ≡ ok none
unfolding get_book_by_id
banned_unseen id admin_id w h =
    let unseen : find_first (λ b. has_id id b && shown false b) w.db.books ≡ none =
      find_first-stronger (escapes id admin_id) (λ b. has_id id b && shown false b) w.db.books h
        (λ b fits. ground (arith, fits)) in
    ground (arith, unseen)

module _ ⦃env : Env⦄ ⦃library : Library⦄ ⦃provider : Provider⦄ where
  -- The world after a request, however it was answered.
  abbrev pub handle : Request → World → World
  handle (deletes id author_id) w = (delete_book id author_id w).1
  handle (restores id user) w = (restore_book id user w).1
  handle (reviews id admin_id status) w = (review_book id admin_id status w).1
  handle (edits id payload) w = (admin_update_book id payload w).1
  handle (updates id author_id dto file cover) w = (update_book id author_id dto file cover w).1

  abbrev pub handle_all : List Request → World → World
  handle_all [] w = w
  handle_all (r ∷ rs) w = handle_all rs (handle r w)

  handle-IsBanned :
      (apart : Apart provider) (id admin_id : String) (r : Request) (w : World)
      → IsPlain admin_id r
      → IsBanned id admin_id w
      → IsBanned id admin_id (handle r w)
  handle-IsBanned apart id admin_id (deletes j author_id) w fair h =
      delete-IsBanned id admin_id j author_id w h
  handle-IsBanned apart id admin_id (restores j user) w (plain_user, stranger) h =
      restore-IsBanned id admin_id j user w plain_user stranger h
  handle-IsBanned apart id admin_id (reviews j by status) w fair h =
      Changes-IsBanned id admin_id j w (review_book j by status w).1 _
        (reviewed by status (env.clock w.step)) (review_rows j by status w) h
        (λ done row here banned. banned)
  handle-IsBanned apart id admin_id (edits j payload) w fair h =
      Changes-IsBanned id admin_id j w (admin_update_book j payload w).1 _ (edited payload)
        (edit_rows j payload w) h (λ done row here banned. banned)
  handle-IsBanned apart id admin_id (updates j author_id dto file cover) w fair h =
      update-IsBanned id admin_id apart j author_id dto file cover w h

  handle_all-IsBanned :
      (apart : Apart provider) (id admin_id : String) (requests : List Request) (w : World)
      → AllPlain admin_id requests
      → IsBanned id admin_id w
      → IsBanned id admin_id (handle_all requests w)
  handle_all-IsBanned apart id admin_id [] w all h = h
  handle_all-IsBanned apart id admin_id (r ∷ rs) w (fair, all) h =
      handle_all-IsBanned apart id admin_id rs (handle r w) all
        (handle-IsBanned apart id admin_id r w fair h)

  -- Once an administrator has banned a book, it stays deleted by that administrator, and
  -- `getBookById` without hidden books does not find it, after every sequence of deletions,
  -- reviews, edits by administrators and updates by authors, by anybody, and of attempts to restore
  -- a book by users who are neither administrators by their token's role nor the one who banned.
  -- Assumed: the ids of books are distinct, and the storage provider leaves the table of books alone.
  pub ban_outlasts :
      (apart : Apart provider) (id admin_id : String) (requests : List Request) (w w1 : World)
      (row : Book)
      → Distinct (λ b. b.id) w.db.books
      → ban_book id admin_id w ≡ (ok row, w1)
      → AllPlain admin_id requests
      → IsBanned id admin_id (handle_all requests w1)
        × ((get_book_by_id id false (handle_all requests w1)).0 ≡ ok none)
  ban_outlasts apart id admin_id requests w w1 row d done all =
      let banned =
        handle_all-IsBanned apart id admin_id requests w1 all
          (ban-IsBanned id admin_id w w1 row d done) in
      (banned, banned_unseen id admin_id (handle_all requests w1) banned)
