-- ===== src/Tests/Library.antt =====
-- The theorems on books, genres, guards and balances at the sample book, user and wallet.
use nadbooks_backend.Prelude.{
  List, none, ◌+◌, ◌≡◌, ◌≢◌, refl, some, true, false, [], ◌∷◌, find_first, ◌&&◌,
}
use nadbooks_backend.Prelude.Int.{pos}
use nadbooks_backend.Prelude.Distinct.{Distinct}
use nadbooks_backend.Schema.{Book, User, Role}
use nadbooks_backend.Effects.{World, Value, book, ok, err, not_found}
use nadbooks_backend.Wallet.Ledger.{
  credits, debits, ledger_of, post, covers, perform, each, wallets_refine_ledger,
}
use nadbooks_backend.Users.Store.{find_user}
use nadbooks_backend.Users.Administration.{update_user_active_state, with_active}
use nadbooks_backend.Genre.{create, rename, remove, find_genre}
use nadbooks_backend.Genre.Names.{IsNamed, Named, genres-IsNamed}
use nadbooks_backend.Storage.{Provider}
use nadbooks_backend.Storage.R2.{r2_provider, get_signed_url}
use nadbooks_backend.Auth.Crypto.{JwtPayload, payload_of}
use nadbooks_backend.Auth.Guards.{Jwt, jwt_guard, auth_guard, admin_auth}
use nadbooks_backend.Auth.Guards.Stale.{deactivated_admitted}
use nadbooks_backend.Users.Roles.{is_admin}
use nadbooks_backend.Books.{
  update_row, without_url, find_book, get_book_by_id, set_book, has_id, shown,
}
use nadbooks_backend.Books.Reading.{find_book_by_id, get_download_url, book_key, check_access}
use nadbooks_backend.Books.Access.{download_allowed, MayRead}
use nadbooks_backend.Books.Cache.{banned_book_served, hidden_book_served}
use nadbooks_backend.Books.Moderation.{ban_book, deleted_by}
use nadbooks_backend.Books.Banned.{IsBanned}
use nadbooks_backend.Books.Banned.Outlasts.{
  Request, deletes, restores, updates, handle_all, ban_outlasts,
}
use nadbooks_backend.Books.Uploads.OnR2.{r2-Apart}
use nadbooks_backend.Stats.{figures}
use nadbooks_backend.Stats.Sums.{figures_add_up}
use nadbooks_backend.Tests.Samples.{
  ada, sample_env, sample_library, sample_world, sample_db, sample_book, sample_genre, differ,
}
use nadbooks_backend.Tests.Stores.{sample_r2}

instance abbrev sample_provider : Provider
sample_provider = r2_provider

abbrev author : JwtPayload
author = record {
  sub = "u2";
  username = "obi";
  email = "obi@mail";
  role = Role.user;
  is_verified = true;
}

download_allowed_example :
    (row : Book) × (find_first (λ b. has_id "b1" b && shown false b) sample_db.books ≡ some row)
    × (row.is_deleted ≡ false)
    × MayRead author row sample_db
    × ((sample_provider.get_signed_url row.book_url 300 sample_world).0 ≡ ok "books/title.pdf")
unfolding get_download_url get_book_by_id find_first check_access get_signed_url
download_allowed_example = download_allowed "b1" author sample_world ("books/title.pdf", 300) refl

abbrev view_of : Book → Value
view_of row = book (record { row = record row { book_url = "" }; genre = some sample_genre })

abbrev looked : World
looked = (find_book_by_id "b1" false sample_world).1

abbrev banned_world : World
banned_world = (ban_book "b1" "u9" looked).1

abbrev banned_row : Book
banned_row = record (deleted_by "u9" sample_book) { book_url = "" }

banned_book_served_example :
    (banned_row.is_deleted ≡ true)
    × (find_book_by_id "b1" false banned_world ≡ (ok (view_of sample_book), banned_world))
unfolding find_book_by_id get_book_by_id find_first find_genre book_key ban_book find_book set_book
banned_book_served_example =
    banned_book_served "b1" "u9" false sample_world looked banned_world (view_of sample_book)
      banned_row refl refl

-- The book is deleted, and not in the cache.
abbrev hiding : World
hiding = record sample_world { db = record sample_db { books = deleted_by "u9" sample_book ∷ [] } }

abbrev seen_by_admin : World
seen_by_admin = (find_book_by_id "b1" true hiding).1

hidden_book_served_example :
    ((find_book_by_id "b1" false hiding).0 ≡ err (not_found "Book not found"))
    × (find_book_by_id "b1" false seen_by_admin
        ≡ (ok (view_of (deleted_by "u9" sample_book)), seen_by_admin))
unfolding find_book_by_id get_book_by_id find_first find_genre book_key
hidden_book_served_example =
    hidden_book_served "b1" hiding seen_by_admin (view_of (deleted_by "u9" sample_book)) refl refl
      refl

abbrev after_ban : World
after_ban = (ban_book "b1" "u9" sample_world).1

-- The author deletes the book, restores it and edits it.
abbrev requests : List Request
requests =
    deletes "b1" "u2"
    ∷ restores "b1" author
    ∷ updates "b1" "u2"
        (record {
          title = some "Other";
          genre_id = none;
          price = none;
          is_mature = none;
          date_authored = none;
        })
        none none
    ∷ []

Distinct-books : Distinct (λ b. b.id) sample_world.db.books
unfolding Distinct find_first
Distinct-books = (refl, tt)

ban_outlasts_example :
    IsBanned "b1" "u9" (handle_all requests after_ban)
    × ((get_book_by_id "b1" false (handle_all requests after_ban)).0 ≡ ok none)
unfolding ban_book update_row find_book find_first
ban_outlasts_example =
    ban_outlasts r2-Apart "b1" "u9" requests sample_world after_ban
      (without_url (deleted_by "u9" sample_book)) Distinct-books refl
      (tt, ((refl, differ "u2" "u9" refl), (tt, tt)))

IsNamed-sample : IsNamed sample_world
unfolding Named Distinct find_first
IsNamed-sample = ((refl, tt), (refl, tt))

genres-IsNamed_example :
    IsNamed (create "Poetry" sample_world).1
    × IsNamed (rename "g1" "Poetry" sample_world).1
    × IsNamed (remove "g1" sample_world).1
genres-IsNamed_example = genres-IsNamed "g1" "Poetry" sample_world IsNamed-sample

-- A token that was signed when the user was an administrator.
abbrev admin_payload : JwtPayload
admin_payload = record (payload_of ada) { role = Role.admin }

instance abbrev sample_jwt : Jwt
sample_jwt = record { payload = λ n token. some admin_payload }

abbrev deactivated : World
deactivated = (update_user_active_state Role.super_admin "u1" false sample_world).1

deactivated_admitted_example :
    ((user : User) → (jwt_guard "token" deactivated).0 ≢ ok user)
    × ((auth_guard (some "token") deactivated).0 ≡ ok admin_payload)
    × (is_admin Role.admin ≡ true → (admin_auth (some "token") deactivated).0 ≡ ok admin_payload)
unfolding update_user_active_state find_user find_first
deactivated_admitted_example =
    deactivated_admitted Role.super_admin "u1" "token" admin_payload sample_world deactivated
      (with_active false ada) refl refl refl

wallets_refine_ledger_example :
    ledger_of (each perform (credits "w1" (pos 500) ∷ debits "w1" (pos 200) ∷ []) sample_world).db
    ≡ each (post covers) (credits "w1" (pos 500) ∷ debits "w1" (pos 200) ∷ []) (ledger_of sample_db)
wallets_refine_ledger_example =
    wallets_refine_ledger (credits "w1" (pos 500) ∷ debits "w1" (pos 200) ∷ []) sample_world

figures_add_up_example :
    let f = figures sample_db in
    let o = f.orders.by_status in
    let t = f.transactions.by_status in
    (f.books.pending_review + f.books.approved + f.books.rejected + f.books.deleted ≡ f.books.total)
    × (o "PENDING" + o "PAID" + o "FAILED" + o "CANCELLED" + o "COMPLETED" ≡ f.orders.total)
    × (t "PENDING" + t "SUCCESS" + t "FAILED" ≡ f.transactions.total)
figures_add_up_example = figures_add_up sample_db
