-- ===== src/Books/Banned.antt =====
-- A banned book and the requests of users, one by one.
pub mod Files
pub mod Updates
pub mod Outlasts
use mathlib.Core.Path.{subst}
use nadbooks_backend.Prelude.{
  String, Bool, ◌≡◌, ◌≢◌, refl, sym, ap, ◌∙◌, true, false, none, some, Option, arith, inl, inr,
  Bool-cases, find_first, find_first-fits, is_text, eq_iff, not, ◌&&◌, ◌==◌, List, [], ◌∷◌,
}
use nadbooks_backend.Prelude.Distinct.{find_first-none, find_first-update_none}
use nadbooks_backend.Schema.{Book, BookStatus}
use nadbooks_backend.Effects.{World, Env}
use nadbooks_backend.Auth.Crypto.{JwtPayload}
use nadbooks_backend.Books.{has_id, of_author, is_admin}
use nadbooks_backend.Books.Moderation.{
  deleted_by, restored, reviewed, edited, AdminEdit, delete_book, is_hidden, restore_book,
  review_book, admin_update_book,
}
use nadbooks_backend.Books.Moderation.Rows.{
  Changes, delete_rows, restore_rows, review_rows, edit_rows,
}

-- A row of the book that is not deleted, or not by this administrator.
abbrev pub escapes : String → String → Book → Bool
escapes id admin_id row =
    has_id id row && not (row.is_deleted && is_text row.deleted_by_id admin_id)

-- Every row of the book was deleted by this administrator.
abbrev pub IsBanned : String → String → World → Type 0
IsBanned id admin_id w = find_first (escapes id admin_id) w.db.books ≡ none

pub Changes-IsBanned :
    (id admin_id j : String) (w v : World) (C : Type 0) (f : Book → Book)
    → Changes w v C j f
    → IsBanned id admin_id w
    → (C
        → (row : Book) → has_id j row ≡ true
        → escapes id admin_id row ≡ false
        → escapes id admin_id (f row) ≡ false)
    → IsBanned id admin_id v
Changes-IsBanned id admin_id j w v C f (inl same) h k =
    ap (λ l. find_first (escapes id admin_id) l) same ∙ h
Changes-IsBanned id admin_id j w v C f (inr (c, same)) h k =
    ap (λ l. find_first (escapes id admin_id) l) same
    ∙ find_first-update_none (escapes id admin_id) (has_id j) f w.db.books h (k c)

is_text-eq : (o : Option String) (a b : String) → is_text o a ≡ true → is_text o b ≡ true → a ≡ b
is_text-eq none a b h k = ground (arith, h)
is_text-eq (some t) a b h k = sym ((eq_iff t a).0 h) ∙ (eq_iff t b).0 k

-- An update of the rows of another book.
pub other_book :
    (id admin_id j : String) (f : Book → Book) (row : Book)
    → (j == id) ≡ false
    → ((r : Book) → (f r).id ≡ r.id)
    → has_id j row ≡ true
    → escapes id admin_id (f row) ≡ false
other_book id admin_id j f row away same here =
    let own : row.id ≡ j = (eq_iff row.id j).0 here in
    let differs : (row.id == id) ≡ false = ap (λ x. x == id) own ∙ away in
    rw (same row, differs) refl

-- A row that an author may delete is not banned.
escaped :
    (id admin_id j author_id : String) (row : Book)
    → j ≡ id
    → of_author j author_id false row ≡ true
    → escapes id admin_id row ≢ false
escaped id admin_id j author_id row own fits safe =
    let fits' = subst (λ x. of_author x author_id false row ≡ true) own fits in
    ground (arith, fits', safe)

pub delete-IsBanned :
    (id admin_id j author_id : String) (w : World)
    → IsBanned id admin_id w
    → IsBanned id admin_id (delete_book j author_id w).1
delete-IsBanned id admin_id j author_id w h =
    Changes-IsBanned id admin_id j w (delete_book j author_id w).1 _ (deleted_by author_id)
      (delete_rows j author_id w) h
      (λ (found_row, found) row here banned. elim (Bool-cases (j == id)) [
        | inr away ↦ other_book id admin_id j (deleted_by author_id) row away (λ r. refl) here
        | inl same ↦
            let fits = find_first-fits (of_author j author_id false) w.db.books found_row found in
            let safe =
              find_first-none (escapes id admin_id) (of_author j author_id false) w.db.books
                found_row h found in
            let own : j ≡ id = (eq_iff j id).0 same in
            absurd (escaped id admin_id j author_id found_row own fits safe)
      ])

-- A row that a plain user may restore was not deleted by the administrator.
restorable :
    (id admin_id j : String) (user : JwtPayload) (row : Book)
    → j ≡ id
    → is_hidden j row ≡ true
    → (not (is_admin user.role) && not (is_text row.deleted_by_id user.sub)) ≡ false
    → is_admin user.role ≡ false
    → user.sub ≢ admin_id
    → escapes id admin_id row ≢ false
restorable id admin_id j user row own fits allowed plain_user stranger safe =
    let fits' = subst (λ x. is_hidden x row ≡ true) own fits in
    let mine : is_text row.deleted_by_id user.sub ≡ true = ground (arith, allowed, plain_user) in
    let theirs : is_text row.deleted_by_id admin_id ≡ true = ground (arith, fits', safe) in
    stranger (is_text-eq row.deleted_by_id user.sub admin_id mine theirs)

pub restore-IsBanned :
    (id admin_id j : String) (user : JwtPayload) (w : World)
    → is_admin user.role ≡ false
    → user.sub ≢ admin_id
    → IsBanned id admin_id w
    → IsBanned id admin_id (restore_book j user w).1
restore-IsBanned id admin_id j user w plain_user stranger h =
    Changes-IsBanned id admin_id j w (restore_book j user w).1 _ restored (restore_rows j user w) h
      (λ (found_row, found, allowed) row here banned. elim (Bool-cases (j == id)) [
        | inr away ↦ other_book id admin_id j restored row away (λ r. refl) here
        | inl same ↦
            let fits = find_first-fits (is_hidden j) w.db.books found_row found in
            let safe =
              find_first-none (escapes id admin_id) (is_hidden j) w.db.books found_row h found in
            let own : j ≡ id = (eq_iff j id).0 same in
            absurd
              (restorable id admin_id j user found_row own fits allowed plain_user stranger safe)
      ])
