-- ===== src/Books/Moderation.antt =====
-- Deletion, banning, restoring and review.
pub mod Rows
use nadbooks_backend.Prelude.{
  ℕ, String, Bool, true, false, ◌==◌, ◌&&◌, ◌||◌, not, Option, none, some, find_first, is_text,
  if◌then◌else◌,
}
use nadbooks_backend.Schema.{Book, BookStatus}
use nadbooks_backend.Effects.{
  World, Env, Action, Void, not_found, forbidden, pure, throw, gets, or_throw, ask, ◌>>=◌, ◌>>◌,
  throw_if,
}
use nadbooks_backend.Redis.{del}
use nadbooks_backend.Genre.{assert_exists}
use nadbooks_backend.Auth.Crypto.{JwtPayload}
use nadbooks_backend.Books.{has_id, update_row, find_author_book_by_id, without_url, is_admin}
use nadbooks_backend.Books.Reading.{book_key}

abbrev pub deleted_by : String → Book → Book
deleted_by id book = record book { is_deleted = true; deleted_by_id = some id }

abbrev pub restored : Book → Book
restored book = record book { is_deleted = false; deleted_by_id = none }

abbrev pub reviewed : String → BookStatus → ℕ → Book → Book
reviewed admin_id status now book = record book {
  status = status;
  reviewed_by_id = some admin_id;
  date_reviewed = some now;
}

-- `AdminEditBookDto`: a field that is absent stays.
pub record AdminEdit : Type 0 where
  pub genre_id : Option String
  pub is_mature : Option Bool
  pub status : Option BookStatus

abbrev or_keep : {A : Type 0} → Option A → A → A
or_keep none a = a
or_keep (some b) a = b

abbrev pub edited : AdminEdit → Book → Book
edited payload book = record book {
  genre_id = or_keep payload.genre_id book.genre_id;
  is_mature = or_keep payload.is_mature book.is_mature;
  status = or_keep payload.status book.status;
}

unfoldable pub delete_book : String → String → Action Void
unfolding find_author_book_by_id update_row del
delete_book id author_id = do
  book ← find_author_book_by_id id author_id false
  update_row id (deleted_by author_id)
  del (book_key id)

-- The cached book is left in Redis.
unfoldable pub ban_book : String → String → Action Book
unfolding update_row
ban_book id admin_id = do book ← update_row id (deleted_by admin_id); pure (without_url book)

abbrev pub is_hidden : String → Book → Bool
is_hidden id book = has_id id book && book.is_deleted

unfoldable pub check_restorer : JwtPayload → Book → Action Unit
check_restorer user book =
    throw_if (not (is_admin user.role) && not (is_text book.deleted_by_id user.sub)) (
      forbidden
        "You are not allowed to restore this book. It may have been deleted by an administrator.")

unfoldable pub restore_book : String → JwtPayload → Action Book
unfolding check_restorer update_row del
restore_book id user = do
  book ← or_throw (← gets (λ w. find_first (is_hidden id) w.db.books)) (not_found "Book not found")
  check_restorer user book
  after ← update_row id restored
  del (book_key id)
  pure (without_url after)

unfoldable pub review_book : ⦃env : Env⦄ → String → String → BookStatus → Action Book
unfolding update_row del
review_book ⦃env⦄ id admin_id status = do
  now ← ask env.clock
  book ← update_row id (reviewed admin_id status now)
  del (book_key id)
  pure (without_url book)

abbrev pub check_genre : Option String → Action Void
check_genre none = pure tt
check_genre (some id) = if id == "" then pure tt else (assert_exists id >> pure tt)

unfoldable pub admin_update_book : String → AdminEdit → Action Book
unfolding assert_exists update_row del
admin_update_book id payload = do
  check_genre payload.genre_id
  book ← update_row id (edited payload)
  del (book_key id)
  pure (without_url book)
