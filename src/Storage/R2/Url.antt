-- ===== src/Storage/R2/Url.antt =====
-- The public URL of a key, and the key of a public URL.
use Prim.Native.String
use Prim.Native.String.{String}
use Prim.Native.Char.{code}
use text.Mathlib.TextLemmas.{cons-append, nil-append}
use nadbooks_backend.Prelude.{◌≡◌, ◌∙◌, ap, ℕ, none, some, Option, true, eqb, arith}
use nadbooks_backend.Storage.R2.{
  R2, after_prefix, behind_first, strip_prefix, strip_base, public_url,
}

same_code : (n : ℕ) → eqb n n ≡ true
same_code n = ground arith

-- A text with a prefix in front starts with it.
pub after_prefix-append :
    (prefix text : String) → after_prefix prefix (String.◌++◌ prefix text) ≡ some text
unfolding after_prefix
after_prefix-append String.[] text = ap (λ t. some t) (nil-append text)
after_prefix-append (String.◌∷◌ c prefix) text =
    ap (after_prefix (String.◌∷◌ c prefix)) (cons-append c prefix text)
    ∙ rw (same_code (code c)) (after_prefix-append prefix text)

-- The base URL and the slash come off a public URL.
pub strip_base-public_url : ⦃r2 : R2⦄ (key : String) → strip_base (public_url key) ≡ some key
unfolding strip_base strip_prefix public_url
strip_base-public_url ⦃r2⦄ key =
    ap (λ o. elim o as (λ x. Option String) [ none ↦ none | some rest ↦ some (behind_first rest) ])
      (after_prefix-append r2.public_base_url (String.◌++◌ "/" key))
    ∙ ap (λ t. some (behind_first t)) (cons-append "/" "" key)
    ∙ ap (λ t. some t) (nil-append key)
