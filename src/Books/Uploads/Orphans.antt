-- ===== src/Books/Uploads/Orphans.antt =====
-- What the deletions of the roll-back leave.
use mathlib.Core.Path.{subst}
use nadbooks_backend.Prelude.{
  String, Bool, ◌≡◌, sym, ap, ◌∙◌, true, none, some, List, ◌∷◌, arith, inl, inr, Bool-cases,
  find_many, not,
}
use nadbooks_backend.Effects.{World, Error, StoredObject, ok, err, throw, ◌>>◌}
use nadbooks_backend.Effects.Laws.{Result-cases, bind-ok}
use nadbooks_backend.Storage.{Provider, delete_file}
use nadbooks_backend.Books.Uploads.{roll_back, delete_opt}
use nadbooks_backend.Prelude.Distinct.{find_many-none}
use nadbooks_backend.Books.Uploads.RollBack.{Tidy, NoneNew}

one_dropped :
    (names : StoredObject → Bool) (o : StoredObject) (objects : List StoredObject)
    → names o ≡ true
    → NoneNew objects (find_many (λ x. not (names x)) (o ∷ objects))
unfolding find_many
one_dropped names o objects named p absent =
    rw named (find_many-none p (λ x. not (names x)) objects absent)

two_dropped :
    (names other : StoredObject → Bool) (c o : StoredObject) (objects : List StoredObject)
    → names o ≡ true
    → other c ≡ true
    → NoneNew objects
        (find_many (λ x. not (other x)) (find_many (λ x. not (names x)) (c ∷ o ∷ objects)))
unfolding find_many
two_dropped names other c o objects named named' p absent =
    let rest = find_many-none p (λ x. not (names x)) objects absent in
    elim (Bool-cases (names c)) [
      | inl both ↦ rw (both, named) (find_many-none p (λ x. not (other x)) _ rest)
      | inr one ↦ rw (one, named, named') (find_many-none p (λ x. not (other x)) _ rest)
    ]

module _ ⦃provider : Provider⦄ (tidy : Tidy provider) where
  -- The object store after a file went up.
  abbrev pub Stored : List StoredObject → String → World → Type 0
  Stored objects reference w =
      (o : StoredObject) × (w.objects ≡ o ∷ objects) × (tidy.names reference o ≡ true)

  delete_file-objects :
      (reference : String) (w : World)
      → (delete_file reference w).1.objects
        ≡ find_many (λ o. not (tidy.names reference o)) w.objects
  unfolding delete_file
  delete_file-objects reference w = elim (Result-cases (provider.delete_file reference w).0) [
    | inl (done, gone) ↦ ground (arith, gone, tidy.deleted reference w)
    | inr (e, failed) ↦ ground (arith, failed, tidy.deleted reference w)
  ]

  delete_file-returns : (reference : String) (w : World) → (delete_file reference w).0 ≡ ok tt
  unfolding delete_file
  delete_file-returns reference w = elim (Result-cases (provider.delete_file reference w).0) [
    | inl (done, gone) ↦ ground (arith, gone)
    | inr (e, failed) ↦ ground (arith, failed)
  ]

  pub roll_back_one :
      (A : Type 0) (book_url : String) (e : Error) (w : World)
      → roll_back {A = A} book_url none e w ≡ (err e, (delete_file book_url w).1)
  unfolding roll_back
  roll_back_one A book_url e w =
      bind-ok (delete_file book_url) (λ done. delete_opt none >> throw e) w tt
        (delete_file-returns book_url w)

  roll_back_two :
      (A : Type 0) (book_url cover_url : String) (e : Error) (w : World)
      → roll_back {A = A} book_url (some cover_url) e w
        ≡ (err e, (delete_file cover_url (delete_file book_url w).1).1)
  unfolding roll_back
  roll_back_two A book_url cover_url e w =
      bind-ok (delete_file book_url) (λ done. delete_file cover_url >> throw e) w tt
        (delete_file-returns book_url w)
      ∙ bind-ok (delete_file cover_url) (λ done. throw e) (delete_file book_url w).1 tt
          (delete_file-returns cover_url (delete_file book_url w).1)

  -- A roll-back after one upload, and after two.
  pub roll_back_one-NoneNew :
      (A : Type 0) (objects : List StoredObject) (book_url : String) (e : Error) (w : World)
      → Stored objects book_url w
      → NoneNew objects (roll_back {A = A} book_url none e w).1.objects
  roll_back_one-NoneNew A objects book_url e w (o, there, named) =
      let names = tidy.names book_url in
      subst (λ (l : List StoredObject). NoneNew objects l)
        (sym (
          ap (λ r. r.1.objects) (roll_back_one A book_url e w)
          ∙ delete_file-objects book_url w
          ∙ ap (λ l. find_many (λ x. not (names x)) l) there))
        (one_dropped names o objects named)

  abbrev pub Both : List StoredObject → String → String → World → Type 0
  Both objects book_url cover_url w =
      (c : StoredObject) × (o : StoredObject) × (w.objects ≡ c ∷ o ∷ objects)
      × (tidy.names book_url o ≡ true)
      × (tidy.names cover_url c ≡ true)

  pub roll_back_two-NoneNew :
      (A : Type 0) (objects : List StoredObject) (book_url cover_url : String) (e : Error)
      (w : World)
      → Both objects book_url cover_url w
      → NoneNew objects (roll_back {A = A} book_url (some cover_url) e w).1.objects
  roll_back_two-NoneNew A objects book_url cover_url e w (c, o, there, named, named') =
      let names = tidy.names book_url in
      let others = tidy.names cover_url in
      subst (λ (l : List StoredObject). NoneNew objects l)
        (sym (
          ap (λ r. r.1.objects) (roll_back_two A book_url cover_url e w)
          ∙ delete_file-objects cover_url (delete_file book_url w).1
          ∙ ap (λ l. find_many (λ x. not (others x)) l) (delete_file-objects book_url w)
          ∙ ap (λ l. find_many (λ x. not (others x)) (find_many (λ x. not (names x)) l)) there))
        (two_dropped names others c o objects named named')
