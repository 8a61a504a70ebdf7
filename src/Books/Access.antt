-- ===== src/Books/Access.antt =====
-- Who gets a link to a book's file.
use nadbooks_backend.Prelude.{
  String, Bool, ◌≡◌, ◌⊎◌, refl, true, false, some, arith, inl, inr, Bool-cases, Option-cases,
  find_first, find_many, find_first-fits, ltb, length, List, [], ◌∷◌, ◌==◌, ◌&&◌, ◌||◌, or_else,
  eq_iff, ℕ,
}
use nadbooks_backend.Schema.{Book, OrderBook, Db}
use nadbooks_backend.Effects.{World, ok}
use nadbooks_backend.Effects.Laws.{Result-cases}
use nadbooks_backend.Storage.{Provider, get_signed_url}
use nadbooks_backend.Auth.Crypto.{JwtPayload}
use nadbooks_backend.Books.{Library, has_id, shown, get_book_by_id, is_admin}
use nadbooks_backend.Books.Reading.{bought, has_purchased, check_access, sign_url, get_download_url}

-- What is counted is there.
counted :
    (p : OrderBook → Bool) (rows : List OrderBook)
    → ltb 0 (length (find_many p rows)) ≡ true
    → (row : OrderBook) × (find_first p rows ≡ some row)
unfolding find_many find_first
counted p [] h = absurd (ground (arith, h))
counted p (x ∷ xs) h = elim (Bool-cases (p x)) [
  | inl fits ↦ (x, rw fits refl)
  | inr away ↦ let (row, found) = counted p xs (ground (arith, h, away)) in (row, rw away found)
]

-- The author, an admin, or a buyer: an item of the book in a settled order.
abbrev pub MayRead : JwtPayload → Book → Db → Type 0
MayRead user row d =
    ((row.author_id ≡ user.sub) ⊎ (is_admin user.role ≡ true))
    ⊎ ((item : OrderBook) × (find_first (bought d user.sub row.id) d.order_books ≡ some item))

check_access_ok :
    (user : JwtPayload) (row : Book) (w : World)
    → (check_access user row w).0 ≡ ok tt
    → MayRead user row w.db
unfolding check_access has_purchased
check_access_ok user row w done = elim (Bool-cases (row.author_id == user.sub)) [
  | inl author ↦ inl (inl ((eq_iff row.author_id user.sub).0 author))
  | inr stranger ↦ elim (Bool-cases (is_admin user.role)) [
    | inl rules ↦ inl (inr rules)
    | inr plain_user ↦ inr (
        counted (bought w.db user.sub row.id) w.db.order_books
          (ground (arith, done, stranger, plain_user)))
  ]
]

check_access-state : (user : JwtPayload) (row : Book) (w : World) → (check_access user row w).1 ≡ w
unfolding check_access has_purchased
check_access-state user row w =
    elim (Bool-cases ((row.author_id == user.sub) || is_admin user.role)) [
      | inl allowed ↦ rw allowed refl
      | inr stranger ↦ rw stranger refl
    ]

module _ ⦃library : Library⦄ ⦃provider : Provider⦄ where
  sign_url_ok :
      (row : Book) (w : World) (answer : String × ℕ)
      → (sign_url row w).0 ≡ ok answer
      → (provider.get_signed_url row.book_url (or_else library.download_url_ttl 300) w).0
        ≡ ok answer.0
  unfolding sign_url get_signed_url
  sign_url_ok row w answer done =
      let ttl = or_else library.download_url_ttl 300 in
      elim (Result-cases (provider.get_signed_url row.book_url ttl w).0) [
        | inl (url, signed) ↦ ground (arith, done, signed)
        | inr (e, refused) ↦ absurd (ground (arith, done, refused))
      ]

  -- A link is only given for a book that is not deleted, to its author, to an admin by the token's
  -- role, or to who has an item of the book in a paid or completed order; and the link is the
  -- provider's for the file of that book.
  pub download_allowed :
      (id : String) (user : JwtPayload) (w : World) (answer : String × ℕ)
      → (get_download_url id user w).0 ≡ ok answer
      → (row : Book) × (find_first (λ b. has_id id b && shown false b) w.db.books ≡ some row)
        × (row.is_deleted ≡ false)
        × MayRead user row w.db
        × ((provider.get_signed_url row.book_url (or_else library.download_url_ttl 300) w).0
            ≡ ok answer.0)
  unfolding get_download_url get_book_by_id
  download_allowed id user w answer done =
      let test : Book → Bool = λ b. has_id id b && shown false b in
      elim (Option-cases (find_first test w.db.books)) [
        | inl missing ↦ absurd (ground (arith, done, missing))
        | inr (row, found) ↦
            let fits = find_first-fits test w.db.books row found in
            let same = check_access-state user row w in
            elim (Result-cases (check_access user row w).0) [
              | inl (done_check, passed) ↦ (
                row,
                found,
                ground (arith, fits),
                check_access_ok user row w passed,
                sign_url_ok row w answer (ground (arith, done, found, passed, same)),
              )
              | inr (e, refused) ↦ absurd (ground (arith, done, found, refused))
            ]
      ]
