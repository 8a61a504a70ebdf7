-- ===== src/Genre/Names.antt =====
-- No two genres share an id or a name.
use mathlib.Core.Path.{subst}
use nadbooks_backend.Prelude.{
  String, Bool, ◌≡◌, ◌⊎◌, sym, ltb, length, refl, false, none, arith, inl, inr, Bool-cases,
  Option-cases, is_some, find_first, find_many, update_first, List, ◌∷◌, not,
}
use nadbooks_backend.Prelude.Distinct.{
  Distinct, Distinct-insert, Distinct-filter, Distinct-keep, Distinct-update, is_some-none,
}
use nadbooks_backend.Schema.{Genre}
use nadbooks_backend.Effects.{World, Env}
use nadbooks_backend.Effects.Laws.{Keeps}
use nadbooks_backend.Genre.{
  find_genre, find_by_name, find_by_id_or_throw, create, rename, remove, clashes, with_name, has_id,
  of_genre,
}

unfoldable pub Named : ⦃env : Env⦄ → List Genre → Type 0
Named ⦃env⦄ genres = Distinct (λ g. g.id) genres × Distinct (λ g. env.weight g.name) genres

abbrev pub IsNamed : ⦃env : Env⦄ → World → Type 0
IsNamed w = Named w.db.genres

-- What an operation leaves in the table: the same rows, or others under a condition.
abbrev LeavesRows : World → World → Type 0 → List Genre → Type 0
LeavesRows w v C rows = (v.db.genres ≡ w.db.genres) ⊎ (C × (v.db.genres ≡ rows))

kept_or :
    ⦃env : Env⦄ (w v : World) (C : Type 0) (rows : List Genre)
    → LeavesRows w v C rows
    → IsNamed w
    → (C → Named rows)
    → IsNamed v
kept_or w v C rows (inl same) h k = subst (λ (l : List Genre). Named l) (sym same) h
kept_or w v C rows (inr (c, same)) h k = subst (λ (l : List Genre). Named l) (sym same) (k c)

create_rows :
    ⦃env : Env⦄ (name : String) (w : World)
    → let genre : Genre = record { id = env.random w.step; name = name } in
      LeavesRows w
        (create name w).1
        ((find_by_name name w.db ≡ none) × (find_genre genre.id w.db ≡ none))
        (genre ∷ w.db.genres)
unfolding create
create_rows ⦃env⦄ name w = elim (Bool-cases (is_some (find_by_name name w.db))) [
  | inl taken ↦ inl (ground (arith, taken))
  | inr free ↦ elim (Bool-cases (is_some (find_genre (env.random w.step) w.db))) [
    | inl again ↦ inl (ground (arith, free, again))
    | inr new ↦ inr ((is_some-none _ free, is_some-none _ new), ground (arith, free, new))
  ]
]

create-IsNamed : ⦃env : Env⦄ (name : String) → Keeps IsNamed (create name)
unfolding find_by_name find_genre Named
create-IsNamed ⦃env⦄ name w (ids, names) =
    let genre : Genre = record { id = env.random w.step; name = name } in
    kept_or w (create name w).1 _ (genre ∷ w.db.genres) (create_rows name w) (ids, names)
      (λ (free, new). (
        Distinct-insert (λ g. g.id) genre w.db.genres new ids,
        Distinct-insert (λ g. env.weight g.name) genre w.db.genres free names,
      ))

rename_rows :
    ⦃env : Env⦄ (id name : String) (w : World)
    → LeavesRows w
        (rename id name w).1
        (find_first (clashes name id) w.db.genres ≡ none)
        (update_first (has_id id) (with_name name) w.db.genres)
unfolding rename find_by_id_or_throw
rename_rows id name w = elim (Option-cases (find_genre id w.db)) [
  | inl missing ↦ inl (ground (arith, missing))
  | inr (genre, found) ↦ elim (Bool-cases (is_some (find_first (clashes name id) w.db.genres))) [
    | inl taken ↦ inl (ground (arith, found, taken))
    | inr free ↦ inr (is_some-none _ free, ground (arith, found, free))
  ]
]

rename-IsNamed : ⦃env : Env⦄ (id name : String) → Keeps IsNamed (rename id name)
unfolding Named
rename-IsNamed ⦃env⦄ id name w (ids, names) =
    let rows = update_first (has_id id) (with_name name) w.db.genres in
    kept_or w (rename id name w).1 _ rows (rename_rows id name w) (ids, names)
      (λ free. (
        Distinct-keep (λ g. g.id) (has_id id) (with_name name) w.db.genres (λ g. refl) ids,
        Distinct-update (λ g. g.id) (λ g. env.weight g.name) id (env.weight name) (with_name name)
            w.db.genres (λ g. refl) free ids names,
      ))

remove_rows :
    (id : String) (w : World)
    → LeavesRows w
        (remove id w).1
        (ltb 0 (length (find_many (of_genre id) w.db.books)) ≡ false)
        (find_many (λ g. not (has_id id g)) w.db.genres)
unfolding remove find_by_id_or_throw
remove_rows id w = elim (Option-cases (find_genre id w.db)) [
  | inl missing ↦ inl (ground (arith, missing))
  | inr (genre, found) ↦ elim (Bool-cases (ltb 0 (length (find_many (of_genre id) w.db.books)))) [
    | inl used ↦ inl (ground (arith, found, used))
    | inr free ↦ inr (free, ground (arith, found, free))
  ]
]

remove-IsNamed : ⦃env : Env⦄ (id : String) → Keeps IsNamed (remove id)
unfolding Named
remove-IsNamed ⦃env⦄ id w (ids, names) =
    let others : Genre → Bool = λ g. not (has_id id g) in
    kept_or w (remove id w).1 _ (find_many others w.db.genres) (remove_rows id w) (ids, names)
      (λ free. (
        Distinct-filter (λ g. g.id) others w.db.genres ids,
        Distinct-filter (λ g. env.weight g.name) others w.db.genres names,
      ))

-- Creating, renaming and removing genres keeps their ids and their names distinct, however the
-- call ends.
pub genres-IsNamed :
    ⦃env : Env⦄ (id name : String) (w : World)
    → IsNamed w
    → IsNamed (create name w).1 × IsNamed (rename id name w).1 × IsNamed (remove id w).1
genres-IsNamed id name w h =
    (create-IsNamed name w h, rename-IsNamed id name w h, remove-IsNamed id w h)
