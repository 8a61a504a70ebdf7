-- ===== src/Mime/Head.antt =====
-- The first 64 bytes decide the type of a file.
use nadbooks_backend.Prelude.{
  ℕ, zero, suc, ◌⊎◌, inl, inr, ◌+◌, ◌≤◌, String, ◌≡◌, refl, ap, ◌∙◌, arith, List, [], ◌∷◌, leb,
  length, drop, take, begins, begins-take, drop-take,
}
use nadbooks_backend.Effects.{World}
use nadbooks_backend.Mime.{
  itself, ascii, pdf_signature, png_signature, jpeg_signature, zip_signature, riff, webp, epub_type,
  allowed_or_throw, detect_label, read_head, assert_allowed_type, assert_allowed_type_from_path,
}

-- A slice that ends within the first 64 bytes is the same in the head.
begins-slice :
    (f : ℕ → ℕ) (ps xs : List ℕ) (k n : ℕ)
    → length ps ≤ n
    → begins f ps (drop k (take (k + n) xs)) ≡ begins f ps (drop k xs)
begins-slice f ps xs k n h =
    ap (λ l. begins f ps l) (drop-take k n xs) ∙ begins-take f ps (drop k xs) n h

length-take_cases :
    (n : ℕ) (xs : List ℕ)
    → (length (take n xs) ≡ length xs) ⊎ ((length (take n xs) ≡ n) × (n ≤ length xs))
length-take_cases zero [] = inl refl
length-take_cases zero (x ∷ xs) = inr (refl, omega arith)
length-take_cases (suc n) [] = inl refl
length-take_cases (suc n) (x ∷ xs) = elim (length-take_cases n xs) [
  | inl same ↦ inl (ap (λ k. suc k) same)
  | inr (cut, short) ↦ inr (ap (λ k. suc k) cut, omega (arith, short))
]

leb-length : (m n : ℕ) (xs : List ℕ) → m ≤ n → leb m (length (take n xs)) ≡ leb m (length xs)
leb-length m n xs h = elim (length-take_cases n xs) [
  | inl same ↦ rw same refl
  | inr (cut, short) ↦ ground (arith, cut, short, h)
]

detect-head : (file : List ℕ) → detect_label (read_head file) ≡ detect_label file
unfolding detect_label
detect-head file =
    rw
      (
        begins-take itself pdf_signature file 64 (omega arith),
        begins-take itself png_signature file 64 (omega arith),
        begins-take itself jpeg_signature file 64 (omega arith),
        begins-take itself zip_signature file 64 (omega arith),
        begins-take ascii riff file 64 (omega arith),
        begins-slice ascii webp file 8 56 (omega arith),
        begins-slice ascii epub_type file 30 34 (omega arith),
        leb-length 12 64 file (omega arith),
      )
      refl

-- Reading the first 64 bytes of an upload gives the same verdict as reading all of it.
pub assert_head :
    (file : List ℕ) (allowed : List String) (w : World)
    → assert_allowed_type_from_path file allowed w ≡ assert_allowed_type file allowed w
unfolding assert_allowed_type_from_path assert_allowed_type
assert_head file allowed w = ap (λ label. allowed_or_throw label allowed w) (detect-head file)
