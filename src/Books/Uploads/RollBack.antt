-- ===== src/Books/Uploads/RollBack.antt =====
-- An upload that fails leaves no object behind.
use mathlib.Core.Path.{subst}
use nadbooks_backend.Prelude.{
  String, Bool, ◌≡◌, sym, ap, ◌∙◌, true, none, List, ◌∷◌, inl, inr, find_first, find_many, not,
}
use nadbooks_backend.Effects.{World, Error, Result, Action, StoredObject, ok, err, ◌>>=◌}
use nadbooks_backend.Effects.Laws.{Keeps, Result-cases, bind-ok, bind-err}
use nadbooks_backend.Storage.{Provider, Upload, FileType}

-- What the roll-back asks of a provider: a reference names the object that was stored for it, and
-- a deletion removes what the reference names.
pub record Tidy (provider : Provider) : Type 0 where
  pub names : String → StoredObject → Bool
  pub file_stored :
      (type : FileType) (file : Upload) (name reference : String) (w w' : World)
      → provider.store_file type file name w ≡ (ok reference, w')
      → (o : StoredObject) × (w'.objects ≡ o ∷ w.objects) × (names reference o ≡ true)
  pub file_failed :
      (type : FileType) (file : Upload) (name : String) (e : Error) (w w' : World)
      → provider.store_file type file name w ≡ (err e, w')
      → w'.objects ≡ w.objects
  pub stream_stored :
      (type : FileType) (file : Upload) (name mime reference : String) (w w' : World)
      → provider.store_stream type file name mime w ≡ (ok reference, w')
      → (o : StoredObject) × (w'.objects ≡ o ∷ w.objects) × (names reference o ≡ true)
  pub stream_failed :
      (type : FileType) (file : Upload) (name mime : String) (e : Error) (w w' : World)
      → provider.store_stream type file name mime w ≡ (err e, w')
      → w'.objects ≡ w.objects
  pub deleted :
      (reference : String) (w : World)
      → (provider.delete_file reference w).1.objects
        ≡ find_many (λ o. not (names reference o)) w.objects

-- Every object there was there before.
abbrev pub NoneNew : List StoredObject → List StoredObject → Type 0
NoneNew before after =
    (p : StoredObject → Bool) → find_first p before ≡ none → find_first p after ≡ none

module _ {A : Type 0} where
  -- Where the action throws, it has left no new object.
  abbrev pub Safe : List StoredObject → (World → Type 0) → Action A → Type 0
  Safe before Pre m =
      (w : World) → Pre w → (e : Error) → (m w).0 ≡ err e → NoneNew before (m w).1.objects

abbrev pub Same : List StoredObject → World → Type 0
Same objects w = w.objects ≡ objects

-- An action, and what follows when it returns.
pub bind-Safe :
    {A B : Type 0} (before : List StoredObject) (Pre : World → Type 0) (Mid : A → World → Type 0)
    (m : Action A) (f : A → Action B)
    → Safe before Pre m
    → ((w w' : World) (a : A) → Pre w → m w ≡ (ok a, w') → Mid a w')
    → ((a : A) → Safe before (Mid a) (f a))
    → Safe before Pre (m >>= f)
bind-Safe {B = B} before Pre Mid m f sm keeps sf w h e done = elim (Result-cases (m w).0) [
  | inl (a, returned) ↦
      let run = bind-ok m f w a returned in
      let there = keeps w (m w).1 a h (ap (λ r. (r, (m w).1)) returned) in
      subst (λ (r : Result B × World). NoneNew before r.1.objects) (sym run)
        (sf a (m w).1 there e (ap (λ r. r.0) (sym run) ∙ done))
  | inr (x, thrown) ↦
      let run = bind-err m f w x thrown in
      subst (λ (r : Result B × World). NoneNew before r.1.objects) (sym run) (sm w h x thrown)
]

-- An action that touches no object.
pub quiet-Safe :
    {A : Type 0} (objects : List StoredObject) (m : Action A)
    → Keeps (Same objects) m
    → Safe objects (Same objects) m
quiet-Safe objects m keeps w h e done p absent = ap (λ l. find_first p l) (keeps w h) ∙ absent

pub quiet-then :
    {A B : Type 0} (objects : List StoredObject) (m : Action A) (f : A → Action B)
    → Keeps (Same objects) m
    → ((a : A) → Safe objects (Same objects) (f a))
    → Safe objects (Same objects) (m >>= f)
quiet-then objects m f keeps sf =
    bind-Safe objects (Same objects) (λ a. Same objects) m f (quiet-Safe objects m keeps)
      (λ w w' a h run. ap (λ r. r.1.objects) (sym run) ∙ keeps w h) sf
