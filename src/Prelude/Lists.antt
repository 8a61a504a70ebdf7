-- ===== src/Prelude/Lists.antt =====
-- Lists counted by the native numbers: the library's `length` and `take` stand on the unary ones.
use Prim.Native.Nat.{ℕ, suc, ◌+◌, ◌≤◌}
use Prim.Native.String.{String}
use mathlib.Core.Path.{◌≡◌, refl, ap, sym, ◌∙◌}
use mathlib.Core.Bool.{Bool, true, false, ◌||◌, ◌&&◌}
use mathlib.Core.Option.{Option, none, some}
use mathlib.Core.List.{List, [], ◌∷◌}
use native.Mathlib.Omega.{arith}
use text.Mathlib.Text.{◌==◌}
use nadbooks_backend.Prelude.Tests.{eqb}

module _ {A : Type 0} where
  abbrev pub length : List A → ℕ
  length [] = 0
  length (x ∷ xs) = suc (length xs)

  -- `skip`, then `take` if a limit is given.
  abbrev pub drop : ℕ → List A → List A
  drop ℕ.zero xs = xs
  drop (suc n) [] = []
  drop (suc n) (x ∷ xs) = drop n xs

  abbrev pub take : ℕ → List A → List A
  take ℕ.zero xs = []
  take (suc n) [] = []
  take (suc n) (x ∷ xs) = x ∷ take n xs

  pub length-take : (n : ℕ) (xs : List A) → length (take n xs) ≤ n
  length-take ℕ.zero xs = ground arith
  length-take (suc n) [] = ground arith
  length-take (suc n) (x ∷ xs) = ground (arith, length-take n xs)

  take-nil : (n : ℕ) → take n [] ≡ []
  take-nil ℕ.zero = refl
  take-nil (suc n) = refl

  take-suc : (m n : ℕ) (x : A) (xs : List A) → m ≡ suc n → take m (x ∷ xs) ≡ x ∷ take n xs
  take-suc ℕ.zero n x xs e = absurd (omega (arith, e))
  take-suc (suc m) n x xs e = ap (λ k. x ∷ take k xs) (omega (arith, e))

  pub drop-take : (k n : ℕ) (xs : List A) → drop k (take (k + n) xs) ≡ take n (drop k xs)
  drop-take ℕ.zero n xs = ap (λ m. take m xs) (omega arith)
  drop-take (suc k) n [] = ap (λ l. drop (suc k) l) (take-nil (suc k + n)) ∙ sym (take-nil n)
  drop-take (suc k) n (x ∷ xs) =
      ap (λ l. drop (suc k) l) (take-suc (suc k + n) (k + n) x xs (omega arith)) ∙ drop-take k n xs

abbrev pub page : {A : Type 0} → Option ℕ → ℕ → List A → List A
page none skip xs = drop skip xs
page (some limit) skip xs = take limit (drop skip xs)

abbrev pub is_in : String → List String → Bool
is_in x [] = false
is_in x (y ∷ ys) = x == y || is_in x ys

-- The list begins with these numbers, seen through `f`.
abbrev pub begins : (ℕ → ℕ) → List ℕ → List ℕ → Bool
begins f [] xs = true
begins f (p ∷ ps) [] = false
begins f (p ∷ ps) (x ∷ xs) = eqb (f x) p && begins f ps xs

pub begins-take :
    (f : ℕ → ℕ) (ps xs : List ℕ) (n : ℕ) → length ps ≤ n → begins f ps (take n xs) ≡ begins f ps xs
begins-take f [] xs n h = refl
begins-take f (p ∷ ps) xs ℕ.zero h = absurd (omega (arith, h))
begins-take f (p ∷ ps) [] (suc n) h = refl
begins-take f (p ∷ ps) (x ∷ xs) (suc n) h =
    ap (λ b. eqb (f x) p && b) (begins-take f ps xs n (omega (arith, h)))
