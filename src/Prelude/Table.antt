-- ===== src/Prelude/Table.antt =====
-- A database table as the list of its rows, with the reads and writes that the code asks for:
-- the first row that fits (`findFirst`, `findUnique`), all that fit (`findMany`), and an update
-- of the row that fits.
use mathlib.Core.Path.{◌≡◌, refl, ap, sym, ◌∙◌}
use mathlib.Core.Logic.{inl, inr}
use mathlib.Core.Bool.{Bool, true, false, false≢true}
use mathlib.Core.Option.{Option, none, some}
use mathlib.Core.List.{List, [], ◌∷◌}
use native.Mathlib.Omega.{arith}
use nadbooks_backend.Prelude.Tests.{if◌then◌else◌, Bool-cases}
use nadbooks_backend.Prelude.Int.{ℤ, pos, ◌+ℤ◌, int_laws, add_under}

module _ {R : Type 0} where
  unfoldable pub find_first : (R → Bool) → List R → Option R
  find_first p [] = none
  find_first p (r ∷ rs) = if p r then some r else find_first p rs

  unfoldable pub find_many : (R → Bool) → List R → List R
  find_many p [] = []
  find_many p (r ∷ rs) = let rest = find_many p rs in if p r then r ∷ rest else rest

  unfoldable pub update_first : (R → Bool) → (R → R) → List R → List R
  update_first p f [] = []
  update_first p f (r ∷ rs) = if p r then f r ∷ rs else r ∷ update_first p f rs

  unfoldable pub sum_by : (R → ℤ) → List R → ℤ
  sum_by g [] = pos 0
  sum_by g (r ∷ rs) = g r +ℤ sum_by g rs

  -- What is found fits.
  pub find_first-fits : (p : R → Bool) (rs : List R) (r : R) → find_first p rs ≡ some r → p r ≡ true
  unfolding find_first
  find_first-fits p [] r h = ground arith
  find_first-fits p (x ∷ rs) r h = ground (arith, find_first-fits p rs r)

  pub find_first-update_self :
      (p : R → Bool) (f : R → R) (rs : List R) (r : R)
      → find_first p rs ≡ some r
      → p (f r) ≡ true
      → find_first p (update_first p f rs) ≡ some (f r)
  unfolding find_first update_first
  find_first-update_self p f [] r h k = ground arith
  find_first-update_self p f (x ∷ rs) r h k = elim (Bool-cases (p x)) [
    | inl e ↦ let same : x ≡ r = ground arith in rw (e, same, k)
    | inr e ↦ rw (e, e) (find_first-update_self p f rs r (ground arith) k)
  ]

  -- A query that found the updated row finds it again, if the new row still fits.
  pub find_first-update_both :
      (p q : R → Bool) (f : R → R) (rs : List R) (r : R)
      → find_first p rs ≡ some r
      → find_first q rs ≡ some r
      → q (f r) ≡ true
      → find_first q (update_first p f rs) ≡ some (f r)
  unfolding find_first update_first
  find_first-update_both p q f [] r h k e = ground arith
  find_first-update_both p q f (x ∷ rs) r h k e = elim (Bool-cases (p x)) [
    | inl here ↦ let same : x ≡ r = ground arith in rw (here, same, e)
    | inr away ↦ elim (Bool-cases (q x)) [
      | inl fits ↦
          let same : x ≡ r = ground arith in
          absurd (false≢true (sym away ∙ rw same (find_first-fits p rs r (ground arith))))
      | inr unfit ↦
          rw (away, unfit) (find_first-update_both p q f rs r (ground arith) (ground arith) e)
    ]
  ]

  -- An update that another query cannot see.
  pub find_first-update_other :
      (p q : R → Bool) (f : R → R) (rs : List R) (r : R)
      → find_first p rs ≡ some r
      → q r ≡ false
      → q (f r) ≡ false
      → find_first q (update_first p f rs) ≡ find_first q rs
  unfolding find_first update_first
  find_first-update_other p q f [] r h k k' = refl
  find_first-update_other p q f (x ∷ rs) r h k k' = elim (Bool-cases (p x)) [
    | inl e ↦ let same : x ≡ r = ground arith in rw (e, same, k, k')
    | inr e ↦ rw (e) (
        ap (λ o. if q x then some x else o)
          (find_first-update_other p q f rs r (ground arith) k k'))
  ]

  pub sum_by-update :
      (g : R → ℤ) (p : R → Bool) (f : R → R) (rs : List R) (r : R)
      → find_first p rs ≡ some r
      → sum_by g (update_first p f rs) +ℤ g r ≡ sum_by g rs +ℤ g (f r)
  unfolding find_first update_first sum_by
  sum_by-update g p f [] r h = ground arith
  sum_by-update g p f (x ∷ rs) r h = elim (Bool-cases (p x)) [
    | inl e ↦ let same : x ≡ r = ground arith in rw (e, same) (omega int_laws)
    | inr e ↦ rw e (add_under (g x) _ _ (g r) (g (f r)) (sum_by-update g p f rs r (ground arith)))
  ]
