-- ===== src/Genre.antt =====
-- src/genre/genre.service.ts. `list` in alphabetical order is the database's sort.
pub mod Names
use nadbooks_backend.Prelude.{
  ℕ, String, Bool, ◌==◌, ◌&&◌, not, Option, List, [], ◌∷◌, find_first, find_many, update_first,
  is_some, length, ltb,
}
use nadbooks_backend.Schema.{Db, Genre, Book}
use nadbooks_backend.Effects.{
  same_text, World, Env, Action, Void, bad_request, not_found, conflict, record_not_found,
  unique_violation, pure, gets, or_throw, ask, ◌>>=◌, ◌>>◌, throw_if, modify,
}

abbrev pub has_id : String → Genre → Bool
has_id id genre = genre.id == id

abbrev pub has_name : ⦃env : Env⦄ → String → Genre → Bool
has_name name genre = same_text genre.name name

abbrev pub of_genre : String → Book → Bool
of_genre id book = book.genre_id == id

unfoldable pub find_genre : String → Db → Option Genre
find_genre id d = find_first (has_id id) d.genres

unfoldable pub find_by_name : ⦃env : Env⦄ → String → Db → Option Genre
find_by_name name d = find_first (has_name name) d.genres

abbrev pub with_name : String → Genre → Genre
with_name name genre = record genre { name = name }

abbrev pub set_genres : List Genre → World → World
set_genres genres w = record w { db = record w.db { genres = genres } }

unfoldable pub find_by_id_or_throw : String → Action Genre
find_by_id_or_throw id =
    gets (λ w. find_genre id w.db) >>= λ genre. or_throw genre (not_found "Genre not found")

unfoldable pub assert_exists : String → Action Genre
assert_exists id =
    gets (λ w. find_genre id w.db) >>= λ genre. or_throw genre (bad_request "Invalid genre")

unfoldable pub create : ⦃env : Env⦄ → String → Action Genre
create ⦃env⦄ name = do
  taken ← gets (λ w. is_some (find_by_name name w.db))
  throw_if taken (conflict "A genre with this name already exists")
  id ← ask env.random
  repeated ← gets (λ w. is_some (find_genre id w.db))
  throw_if repeated unique_violation
  let genre : Genre = record { id = id; name = name }
  modify (λ w. set_genres (genre ∷ w.db.genres) w)
  pure genre

abbrev pub clashes : ⦃env : Env⦄ → String → String → Genre → Bool
clashes name id genre = has_name name genre && not (has_id id genre)

unfoldable pub rename : ⦃env : Env⦄ → String → String → Action Genre
unfolding find_by_id_or_throw
rename id name = do
  genre ← find_by_id_or_throw id
  clash ← gets (λ w. is_some (find_first (clashes name id) w.db.genres))
  throw_if clash (conflict "A genre with this name already exists")
  modify (λ w. set_genres (update_first (has_id id) (with_name name) w.db.genres) w)
  pure (with_name name genre)

-- The number in the message is left out.
unfoldable pub remove : String → Action String
unfolding find_by_id_or_throw
remove id = do
  genre ← find_by_id_or_throw id
  in_use ← gets (λ w. length (find_many (of_genre id) w.db.books))
  throw_if (ltb 0 in_use)
      (conflict "Cannot delete genre: book(s) still use it. Reassign or remove those books first.")
  modify (λ w. set_genres (find_many (λ g. not (has_id id g)) w.db.genres) w)
  pure "Genre deleted"
