-- ===== src/Effects/Laws.antt =====
-- Rules for properties of the world that an action keeps, and for actions that never return.
use nadbooks_backend.Prelude.{
  ℕ, ◌≡◌, ◌≢◌, refl, ap, ◌∙◌, Bool, true, false, if◌then◌else◌, Option, none, some, ◌⊎◌, inl, inr,
}
use nadbooks_backend.Effects.{
  World, Error, Result, ok, err, Action, pure, throw, ask, ◌>>=◌, ◌>>◌, catch, throw_if, or_throw,
}

pub Result-cases :
    {A : Type 0} (r : Result A) → ((a : A) × (r ≡ ok a)) ⊎ ((e : Error) × (r ≡ err e))
Result-cases (ok a) = inl (a, refl)
Result-cases (err e) = inr (e, refl)

-- The property holds after the action wherever it holds before, however the action ends.
abbrev pub Keeps : {A : Type 0} → (World → Type 0) → Action A → Type 0
Keeps P m = (w : World) → P w → P (m w).1

-- Where the property holds, the action throws.
abbrev pub Throws : {A : Type 0} → (World → Type 0) → Action A → Type 0
Throws {A} P m = (w : World) → P w → (a : A) → (m w).0 ≢ ok a

module _ {A B : Type 0} (m : Action A) (f : A → Action B) (w : World) where
  pub bind-ok : (a : A) → (m w).0 ≡ ok a → (m >>= f) w ≡ f a (m w).1
  bind-ok a e = rw (e, ◌>>=◌)

  pub bind-err : (x : Error) → (m w).0 ≡ err x → (m >>= f) w ≡ (err x, (m w).1)
  bind-err x e = rw (e, ◌>>=◌)

module _ {A : Type 0} (m : Action A) (h : Error → Action A) (w : World) where
  pub catch-ok : (a : A) → (m w).0 ≡ ok a → catch m h w ≡ (ok a, (m w).1)
  catch-ok a e = rw (e, catch)

  pub catch-err : (x : Error) → (m w).0 ≡ err x → catch m h w ≡ h x (m w).1
  catch-err x e = rw (e, catch)

module _ (P : World → Type 0) where
  pub bind-Keeps :
      {A B : Type 0} (m : Action A) (f : A → Action B)
      → Keeps P m
      → ((a : A) → Keeps P (f a))
      → Keeps P (m >>= f)
  bind-Keeps m f km kf w h = elim (Result-cases (m w).0) [
    | inl (a, e) ↦ rw (bind-ok m f w a e) (kf a (m w).1 (km w h))
    | inr (x, e) ↦ rw (bind-err m f w x e) (km w h)
  ]

  pub then-Keeps :
      {A B : Type 0} (m : Action A) (k : Action B) → Keeps P m → Keeps P k → Keeps P (m >> k)
  then-Keeps m k km kk = bind-Keeps m (λ _. k) km (λ _. kk)

  pub catch-Keeps :
      {A : Type 0} (m : Action A) (h : Error → Action A)
      → Keeps P m
      → ((e : Error) → Keeps P (h e))
      → Keeps P (catch m h)
  catch-Keeps m h km kh w p = elim (Result-cases (m w).0) [
    | inl (a, e) ↦ rw (catch-ok m h w a e) (km w p)
    | inr (x, e) ↦ rw (catch-err m h w x e) (kh x (m w).1 (km w p))
  ]

  pub pure-Keeps : {A : Type 0} (a : A) → Keeps P (pure a)
  pure-Keeps a w p = p

  pub throw-Keeps : (A : Type 0) (e : Error) → Keeps P (throw {A = A} e)
  throw-Keeps A e w p = p

  pub throw_if-Keeps : (b : Bool) (e : Error) → Keeps P (throw_if b e)
  throw_if-Keeps b e w p = p

  pub or_throw-Keeps : {A : Type 0} (o : Option A) (e : Error) → Keeps P (or_throw o e)
  or_throw-Keeps none e w p = p
  or_throw-Keeps (some a) e w p = p

  -- A part that always throws makes the whole throw.
  pub bind-Throws_first :
      {A B : Type 0} (m : Action A) (f : A → Action B) → Throws P m → Throws P (m >>= f)
  bind-Throws_first m f tm w p b h = elim (Result-cases (m w).0) [
    | inl (a, e) ↦ absurd (tm w p a e)
    | inr (x, e) ↦ absurd (cc (bind-err m f w x e))
  ]

  pub bind-Throws :
      {A B : Type 0} (m : Action A) (f : A → Action B)
      → Keeps P m
      → ((a : A) → Throws P (f a))
      → Throws P (m >>= f)
  bind-Throws m f km tf w p b h = elim (Result-cases (m w).0) [
    | inl (a, e) ↦ absurd (tf a (m w).1 (km w p) b (cc (bind-ok m f w a e)))
    | inr (x, e) ↦ absurd (cc (bind-err m f w x e))
  ]

-- In this world the action returns, and its value and the world after it are so.
abbrev pub Yields : {A : Type 0} → Action A → World → (A → World → Type 0) → Type 0
Yields {A} m w Q = (a : A) × (v : World) × (m w ≡ (ok a, v)) × Q a v

pub bind-Yields :
    {A B : Type 0} (m : Action A) (f : A → Action B) (w : World) (Q : B → World → Type 0)
    → Yields m w (λ a v. Yields (f a) v Q)
    → Yields (m >>= f) w Q
bind-Yields m f w Q (a, v, run, (b, u, last, so)) = (
  b,
  u,
  bind-ok m f w a (ap (λ r. r.0) run) ∙ ap (λ (x : World). f a x) (ap (λ r. r.1) run) ∙ last,
  so,
)

pub run-Yields :
    {A : Type 0} (m m' : Action A) (w w' : World) (Q : A → World → Type 0)
    → m w ≡ m' w'
    → Yields m' w' Q
    → Yields m w Q
run-Yields m m' w w' Q same (a, v, run, so) = (a, v, same ∙ run, so)

-- The action returns, and leaves the database as it was.
abbrev pub Leaves : {A : Type 0} → Action A → Type 0
Leaves {A} m = (w : World) → Yields m w (λ a v. v.db ≡ w.db)

pub pure-Leaves : {A : Type 0} (a : A) → Leaves (pure a)
pure-Leaves a w = (a, w, refl, refl)

pub ask-Leaves : {A : Type 0} (f : ℕ → A) → Leaves (ask f)
ask-Leaves f w = (f w.step, (ask f w).1, refl, refl)

pub bind-Leaves :
    {A B : Type 0} (m : Action A) (f : A → Action B)
    → Leaves m
    → ((a : A) → Leaves (f a))
    → Leaves (m >>= f)
bind-Leaves m f lm lf w =
    let (a, v, run, same) = lm w in
    let (b, u, last, kept) = lf a v in
    bind-Yields m f w (λ x y. y.db ≡ w.db) (a, v, run, (b, u, last, kept ∙ same))

pub if-Leaves :
    {A : Type 0} (b : Bool) (m k : Action A) → Leaves m → Leaves k → Leaves (if b then m else k)
if-Leaves true m k lm lk = lm
if-Leaves false m k lm lk = lk
