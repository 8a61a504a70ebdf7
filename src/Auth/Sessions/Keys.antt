-- ===== src/Auth/Sessions/Keys.antt =====
-- The Redis keys of tokens and epochs, and which of them can be equal.
use Prim.Native.String
use Prim.Native.String.{String}
use Prim.Native.Char.{code}
use text.Mathlib.TextLemmas.{append_assoc, append_cancel_left, cons-append, head-eq_of_cons-eq}
use nadbooks_backend.Prelude.{◌≡◌, ◌≢◌, refl, arith, ◌∙◌, sym, ap}
use nadbooks_backend.Auth.Sessions.{token_key, user_epoch_key, global_epoch_key}

-- A token that is not spelled like the rest of an epoch's key. `randomUUID` makes such tokens; a
-- client may send any text.
pub record IsToken (token : String) : Type 0 where
  pub not_global : token ≢ "epoch:global"
  pub not_user : (user_id : String) → token ≢ String.◌++◌ "epoch:user:" user_id

pub split_global : token_key "epoch:global" ≡ global_epoch_key
unfolding token_key
split_global = refl

pub split_user : (id : String) → token_key (String.◌++◌ "epoch:user:" id) ≡ user_epoch_key id
unfolding token_key user_epoch_key
split_user id = sym (append_assoc "refresh:" "epoch:user:" id)

pub token_key-injective : (t u : String) → token_key t ≡ token_key u → t ≡ u
unfolding token_key
token_key-injective t u e = append_cancel_left "refresh:" t u e

pub user_epoch_key-injective : (t u : String) → user_epoch_key t ≡ user_epoch_key u → t ≡ u
unfolding user_epoch_key
user_epoch_key-injective t u e = append_cancel_left "refresh:epoch:user:" t u e

pub user-ne-global : (id : String) → user_epoch_key id ≢ global_epoch_key
unfolding user_epoch_key
user-ne-global id e =
    let cut : String.◌++◌ "user:" id ≡ "global" =
      append_cancel_left "refresh:epoch:" _ _
        (sym (append_assoc "refresh:epoch:" "user:" id) ∙ e) in
    let heads = head-eq_of_cons-eq (sym (cons-append _ "ser:" id) ∙ cut) in
    absurd (omega (arith, ap code heads))

module _ (token : String) (t : IsToken token) where
  pub token-ne-global : token_key token ≢ global_epoch_key
  token-ne-global e = t.not_global (token_key-injective _ _ (e ∙ sym split_global))

  pub token-ne-user : (id : String) → token_key token ≢ user_epoch_key id
  token-ne-user id e = t.not_user id (token_key-injective _ _ (e ∙ sym (split_user id)))
