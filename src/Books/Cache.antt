-- ===== src/Books/Cache.antt =====
-- What the cache of single books serves after a ban, and after an administrator has looked.
use mathlib.Core.Path.{subst}
use nadbooks_backend.Prelude.{
  String, Bool, ◌≡◌, refl, sym, ap, ◌∙◌, true, false, none, some, Option, arith, inl, inr,
  Bool-cases, Option-cases, find_first, eq_self, eqb, ◌&&◌,
}
use nadbooks_backend.Schema.{Book}
use nadbooks_backend.Effects.{World, Env, Value, BookView, book, ok, err, not_found}
use nadbooks_backend.Redis.{value_at, get, set}
use nadbooks_backend.Books.{
  Library, has_id, shown, with_genre, with_genre_opt, serialize_book, get_book_by_id, update_row,
  find_book,
}
use nadbooks_backend.Books.Reading.{book_key, cached, keep_view, find_book_by_id}
use nadbooks_backend.Books.Moderation.{ban_book}

ban_book_deletes :
    (id admin_id : String) (w w' : World) (row : Book)
    → ban_book id admin_id w ≡ (ok row, w')
    → row.is_deleted ≡ true
unfolding ban_book update_row
ban_book_deletes id admin_id w w' row done = elim (Option-cases (find_book id w.db)) [
  | inl nothing ↦ absurd (ground (arith, done, nothing))
  | inr (old, found) ↦ ground (arith, done, found)
]

module _ ⦃env : Env⦄ ⦃library : Library⦄ where
  find_cached :
      (id : String) (hidden : Bool) (w : World) (v : Value)
      → cached (value_at (book_key id) w) ≡ some v
      → find_book_by_id id hidden w ≡ (ok v, w)
  unfolding find_book_by_id get
  find_cached id hidden w v there = ground (arith, there)

  keep_view-cached :
      (id : String) (view : BookView) (w : World)
      → cached (value_at (book_key id) (keep_view id (some view) w).1)
        ≡ some (book (serialize_book view))
  unfolding keep_view set
  keep_view-cached id view w = elim (Bool-cases (eqb library.cache_ttl 0)) [
    | inl never ↦ ground (arith, eq_self (book_key id), never)
    | inr later ↦ ground (arith, eq_self (book_key id), later)
  ]

  keep_view-some :
      (id : String) (view : BookView) (w : World)
      → (keep_view id (some view) w).0 ≡ ok (book (serialize_book view))
  unfolding keep_view set
  keep_view-some id view w = refl

  keep_view-none :
      (id : String) (w : World) → (keep_view id none w).0 ≡ err (not_found "Book not found")
  unfolding keep_view
  keep_view-none id w = refl

  -- The first row that a query may show.
  abbrev pub query : String → Bool → World → Option Book
  query id hidden w = find_first (λ b. has_id id b && shown hidden b) w.db.books

  find_uncached :
      (id : String) (hidden : Bool) (w : World)
      → cached (value_at (book_key id) w) ≡ none
      → find_book_by_id id hidden w ≡ keep_view id (with_genre_opt w.db (query id hidden w)) w
  unfolding find_book_by_id get get_book_by_id
  find_uncached id hidden w empty = ground (arith, empty)

  -- What was found is in the cache afterwards.
  found-cached :
      (id : String) (hidden : Bool) (w w' : World) (v : Value)
      → find_book_by_id id hidden w ≡ (ok v, w')
      → cached (value_at (book_key id) w') ≡ some v
  found-cached id hidden w w' v done = elim (Option-cases (cached (value_at (book_key id) w))) [
    | inr (old, there) ↦
        let run = find_cached id hidden w old there in
        let same : w' ≡ w = cc (done, run) in
        let value : old ≡ v = ground (arith, done, run) in
        subst (λ (x : World). cached (value_at (book_key id) x) ≡ some v) (sym same)
          (there ∙ ap (λ x. some x) value)
    | inl empty ↦
        let run = sym done ∙ find_uncached id hidden w empty in
        elim (Option-cases (query id hidden w)) [
          | inl nothing ↦
              let none_kept = keep_view-none id w in
              absurd (ground (arith, run, nothing, none_kept))
          | inr (row, found) ↦
              let view = with_genre w.db row in
              let kept : (ok v, w') ≡ keep_view id (some view) w =
                run ∙ ap (λ o. keep_view id (with_genre_opt w.db o) w) found in
              let value : v ≡ book (serialize_book view) =
                ground (arith, kept, keep_view-some id view w) in
              subst (λ (x : World). cached (value_at (book_key id) x) ≡ some v)
                (sym (ap (λ r. r.1) kept))
                (keep_view-cached id view w ∙ ap (λ x. some x) (sym value))
        ]
  ]

  ban_book-cache :
      (id admin_id : String) (w : World) (v : Value)
      → cached (value_at (book_key id) w) ≡ some v
      → cached (value_at (book_key id) (ban_book id admin_id w).1) ≡ some v
  unfolding ban_book update_row
  ban_book-cache id admin_id w v there = elim (Option-cases (find_book id w.db)) [
    | inl nothing ↦ ground (arith, there, nothing)
    | inr (row, found) ↦ ground (arith, there, found)
  ]

  -- A book that a client has just read is still served after an administrator has banned it, as
  -- long as no time passes.
  pub banned_book_served :
      (id admin_id : String) (hidden : Bool) (w w1 w2 : World) (v : Value) (row : Book)
      → find_book_by_id id hidden w ≡ (ok v, w1)
      → ban_book id admin_id w1 ≡ (ok row, w2)
      → (row.is_deleted ≡ true) × (find_book_by_id id false w2 ≡ (ok v, w2))
  banned_book_served id admin_id hidden w w1 w2 v row read banned =
      let kept = ban_book-cache id admin_id w1 v (found-cached id hidden w w1 v read) in
      (
        ban_book_deletes id admin_id w1 w2 row banned,
        find_cached id false w2 v (
            subst (λ (x : World). cached (value_at (book_key id) x) ≡ some v) (ap (λ r. r.1) banned)
              kept),
      )

  -- A hidden book that is not in the cache is not found by a client; but once an administrator has
  -- looked at it, every client is served it, as long as no time passes.
  pub hidden_book_served :
      (id : String) (w w1 : World) (v : Value)
      → query id false w ≡ none
      → cached (value_at (book_key id) w) ≡ none
      → find_book_by_id id true w ≡ (ok v, w1)
      → ((find_book_by_id id false w).0 ≡ err (not_found "Book not found"))
        × (find_book_by_id id false w1 ≡ (ok v, w1))
  hidden_book_served id w w1 v hidden empty read = (
    ap (λ r. r.0)
          (find_uncached id false w empty ∙ ap (λ o. keep_view id (with_genre_opt w.db o) w) hidden)
        ∙ keep_view-none id w,
    find_cached id false w1 v (found-cached id true w w1 v read),
  )
