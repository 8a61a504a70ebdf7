-- ===== src/Prelude/Distinct.antt =====
-- Tables whose rows differ in a text column, and the updates that keep them so.
use mathlib.Core.Path.{◌≡◌, refl, sym, ◌∙◌}
use mathlib.Core.Logic.{◌⊎◌, inl, inr}
use mathlib.Core.Bool.{Bool, true, false, false≢true, ◌&&◌, not}
use mathlib.Core.Option.{Option, none, some}
use mathlib.Core.List.{List, [], ◌∷◌}
use Prim.Native.String.{String}
use native.Mathlib.Omega.{arith}
use text.Mathlib.Text.{◌==◌}
use text.Mathlib.TextEquality.{eq_iff}
use nadbooks_backend.Prelude.Tests.{Bool-cases, eq_ne, is_some}
use nadbooks_backend.Prelude.Table.{find_first, find_many, update_first}

pub is_some-none : {A : Type 0} (o : Option A) → is_some o ≡ false → o ≡ none
is_some-none none h = refl
is_some-none (some a) h = ground arith

module _ {R : Type 0} where
  -- No later row has the column's value of an earlier one.
  unfoldable pub Distinct : (R → String) → List R → Type 0
  Distinct key [] = Unit {0}
  Distinct key (r ∷ rs) = (find_first (λ x. key x == key r) rs ≡ none) × Distinct key rs

  -- Where no row fits, a row that was found by another query does not fit.
  pub find_first-none :
      (p q : R → Bool) (rs : List R) (r : R)
      → find_first p rs ≡ none
      → find_first q rs ≡ some r
      → p r ≡ false
  unfolding find_first
  find_first-none p q [] r h k = ground arith
  find_first-none p q (x ∷ rs) r h k = ground (arith, find_first-none p q rs r)

  -- If no row fits, and the update keeps it so, then no row fits after it.
  pub find_first-update_none :
      (p q : R → Bool) (f : R → R) (rs : List R)
      → find_first p rs ≡ none
      → ((r : R) → q r ≡ true → p r ≡ false → p (f r) ≡ false)
      → find_first p (update_first q f rs) ≡ none
  unfolding find_first update_first
  find_first-update_none p q f [] h k = refl
  find_first-update_none p q f (x ∷ rs) h k = elim (Bool-cases (q x)) [
    | inl here ↦
        let unfit : p x ≡ false = ground (arith, h) in ground (arith, here, h, k x here unfit)
    | inr away ↦
        let rest = find_first-update_none p q f rs (ground (arith, h)) k in
        ground (arith, away, h, rest)
  ]

  -- A stronger test fits no row either.
  pub find_first-stronger :
      (p q : R → Bool) (rs : List R)
      → find_first p rs ≡ none
      → ((r : R) → q r ≡ true → p r ≡ true)
      → find_first q rs ≡ none
  unfolding find_first
  find_first-stronger p q [] h k = refl
  find_first-stronger p q (x ∷ rs) h k =
      let unfit : p x ≡ false = ground (arith, h) in
      elim (Bool-cases (q x)) [
        | inl fits ↦ absurd (false≢true (sym unfit ∙ k x fits))
        | inr other ↦ ground (arith, other, find_first-stronger p q rs (ground (arith, h)) k)
      ]

  -- A test that implies one of two others that fit no row.
  find_first-either :
      (p q t : R → Bool) (rs : List R)
      → find_first p rs ≡ none
      → find_first q rs ≡ none
      → ((r : R) → t r ≡ true → (p r ≡ true) ⊎ (q r ≡ true))
      → find_first t rs ≡ none
  unfolding find_first
  find_first-either p q t [] h h' k = refl
  find_first-either p q t (x ∷ rs) h h' k =
      let unfit : p x ≡ false = ground (arith, h) in
      let unfit' : q x ≡ false = ground (arith, h') in
      elim (Bool-cases (t x)) [
        | inl fits ↦ elim (k x fits) [
          | inl one ↦ absurd (false≢true (sym unfit ∙ one))
          | inr two ↦ absurd (false≢true (sym unfit' ∙ two))
        ]
        | inr other ↦
            let rest = find_first-either p q t rs (ground (arith, h)) (ground (arith, h')) k in
            ground (arith, other, rest)
      ]

  pub Distinct-insert :
      (key : R → String) (r : R) (rs : List R)
      → find_first (λ x. key x == key r) rs ≡ none
      → Distinct key rs
      → Distinct key (r ∷ rs)
  unfolding Distinct
  Distinct-insert key r rs new d = (new, d)

  pub find_many-none :
      (p q : R → Bool) (rs : List R) → find_first p rs ≡ none → find_first p (find_many q rs) ≡ none
  unfolding find_first find_many
  find_many-none p q [] h = refl
  find_many-none p q (x ∷ rs) h = ground (arith, find_many-none p q rs)

  -- Deleting rows keeps a table distinct.
  pub Distinct-filter :
      (key : R → String) (q : R → Bool) (rs : List R)
      → Distinct key rs
      → Distinct key (find_many q rs)
  unfolding Distinct find_many
  Distinct-filter key q [] d = tt
  Distinct-filter key q (x ∷ rs) (new, d) = elim (Bool-cases (q x)) [
    | inl stays ↦
        rw stays (find_many-none (λ y. key y == key x) q rs new, Distinct-filter key q rs d)
    | inr goes ↦ rw goes (Distinct-filter key q rs d)
  ]

  -- An update that leaves the column as it is.
  pub Distinct-keep :
      (key : R → String) (q : R → Bool) (f : R → R) (rs : List R)
      → ((r : R) → key (f r) ≡ key r)
      → Distinct key rs
      → Distinct key (update_first q f rs)
  unfolding Distinct update_first
  Distinct-keep key q f [] same d = tt
  Distinct-keep key q f (x ∷ rs) same (new, d) = elim (Bool-cases (q x)) [
    | inl here ↦ rw (here, same x) (new, d)
    | inr away ↦ rw away (
      find_first-update_none (λ y. key y == key x) q f rs new (λ r fits unfit. rw (same r) unfit),
      Distinct-keep key q f rs same d,
    )
  ]

  -- The row with a given id takes a value that no other row has.
  pub Distinct-update :
      (id key : R → String) (i k : String) (f : R → R) (rs : List R)
      → ((r : R) → key (f r) ≡ k)
      → find_first (λ x. (key x == k) && not (id x == i)) rs ≡ none
      → Distinct id rs
      → Distinct key rs
      → Distinct key (update_first (λ x. id x == i) f rs)
  unfolding Distinct update_first find_first
  Distinct-update id key i k f [] takes free ids d = tt
  Distinct-update id key i k f (x ∷ rs) takes free (own, ids) (new, d) =
      let rest : find_first (λ y. (key y == k) && not (id y == i)) rs ≡ none =
        ground (arith, free) in
      elim (Bool-cases (id x == i)) [
        | inl here ↦
            rw (here, takes x)
              (
                find_first-either (λ y. (key y == k) && not (id y == i)) (λ y. id y == id x)
                    (λ y. key y == k) rs rest own
                    (λ r fits. elim (Bool-cases (id r == i)) [
                      | inl same ↦ inr (
                          (eq_iff (id r) (id x)).1
                            ((eq_iff (id r) i).0 same ∙ sym ((eq_iff (id x) i).0 here)))
                      | inr other ↦ inl (rw (fits, other) refl)
                    ]),
                d,
              )
        | inr away ↦ rw away (
          find_first-update_none (λ y. key y == key x) (λ y. id y == i) f rs new
              (λ r here unfit. rw (takes r) (
                eq_ne k (key x) (λ same.
                  let fits = (eq_iff (key x) k).1 (sym same) in
                  absurd (ground (arith, free, fits, away))))),
          Distinct-update id key i k f rs takes rest ids d,
        )
      ]
