-- ===== src/Tests/Accounts.antt =====
-- The theorems on accounts and passwords at a new user and at the sample user.
use nadbooks_backend.Prelude.{
  ℕ, String, ◌≡◌, refl, some, none, true, false, eq_self, find_first, update_first, if◌then◌else◌,
  ◌==◌,
}
use nadbooks_backend.Effects.{World, Env, ok, err, unauthorized}
use nadbooks_backend.Effects.Laws.{Yields}
use nadbooks_backend.Users.Store.{
  find_user, find_by_email, find_other_by_google_id, set_user, create_user,
}
use nadbooks_backend.Auth.Crypto.{Crypto}
use nadbooks_backend.Auth.Sessions.{Tokens}
use nadbooks_backend.Auth.Google.{Profile}
use nadbooks_backend.Auth.Accounts.{
  CreateUser, SignedIn, response, registered, register, login, login_request, handle_oauth_login,
  welcome,
}
use nadbooks_backend.Auth.Accounts.RoundTrip.{register-login, register-login_request}
use nadbooks_backend.Auth.Accounts.Takeover.{first_password_survives}
use nadbooks_backend.Auth.Passwords.{change_password}
use nadbooks_backend.Auth.Passwords.RoundTrip.{change_password-login}
use nadbooks_backend.Tests.Samples.{ada, sample_env, sample_crypto, sample_google, sample_world}

law : (n : ℕ) (text : String) → sample_crypto.verify (sample_crypto.hash n text) text ≡ true
law n text = eq_self text

abbrev new_tokens : Tokens
new_tokens = record { access_token = "new"; refresh_token = "new" }

abbrev grace : CreateUser
grace = record {
  first_name = "grace";
  last_name = "obi";
  email = "grace@mail";
  username = "grace";
  password = "pass";
}

abbrev welcomed : CreateUser → SignedIn
welcomed dto = record {
  tokens = new_tokens;
  user = response (registered dto dto.password "new") (some false) none;
}

abbrev joined_by : CreateUser → World
joined_by dto = (register dto sample_world).1

grace_joins : register grace sample_world ≡ (ok (welcomed grace), joined_by grace)
unfolding register welcome create_user find_first
grace_joins = refl

register-login_example :
    Yields
      (login "grace@mail" "pass")
      (joined_by grace)
      (λ t v. (t.user ≡ (welcomed grace).user) × (v.db ≡ (joined_by grace).db))
register-login_example =
    register-login grace sample_world (joined_by grace) (welcomed grace) law grace_joins

-- A spelling of one address, in letters that `toLowerCase` and the collation change.
abbrev fold : String → String
fold text = if text == "Grace@mail" then "grace@mail" else text

abbrev folding_env : Env
folding_env = record sample_env { weight = fold }

abbrev folding : Crypto
folding = record sample_crypto { to_lower_case = fold }

abbrev capital : CreateUser
capital = record grace { email = "Grace@mail" }

abbrev capital_joined : World
capital_joined = (register ⦃env = folding_env⦄ ⦃crypto = folding⦄ capital sample_world).1

capital_joins :
    register ⦃env = folding_env⦄ ⦃crypto = folding⦄ capital sample_world
    ≡ (ok (welcomed capital), capital_joined)
unfolding register welcome create_user find_first
capital_joins = refl

register-login_request_example :
    Yields
      (login_request ⦃env = folding_env⦄ ⦃crypto = folding⦄ "Grace@mail" "pass")
      capital_joined
      (λ t v. (t.user ≡ (welcomed capital).user) × (v.db ≡ capital_joined.db))
register-login_request_example =
    register-login_request ⦃env = folding_env⦄ ⦃crypto = folding⦄ capital sample_world
      capital_joined (welcomed capital) law refl capital_joins

abbrev owner : Profile
owner = record {
  email = "grace@mail";
  given_name = "Grace";
  family_name = "Obi";
  provider = "google";
  provider_id = "g7";
}

abbrev entered : World
entered = (handle_oauth_login owner (joined_by grace)).1

abbrev entry_answer : SignedIn
entry_answer = record {
  tokens = new_tokens;
  user = response (record (registered grace "pass" "new") { is_verified = true }) (some true) none;
}

owner_enters : handle_oauth_login owner (joined_by grace) ≡ (ok entry_answer, entered)
unfolding handle_oauth_login register welcome create_user find_first find_by_email
    find_other_by_google_id find_user set_user update_first
owner_enters = refl

first_password_survives_example :
    Yields
      (login "grace@mail" "pass")
      entered
      (λ u v. (u.user.id ≡ "new") × (u.user.is_verified ≡ some true) × (v.db ≡ entered.db))
first_password_survives_example =
    first_password_survives grace owner sample_world (joined_by grace) entered (welcomed grace)
      entry_answer law grace_joins refl refl owner_enters

abbrev changed : World
changed = (change_password "u1" "secret" "better" sample_world).1

abbrev ada_tokens : Tokens
ada_tokens = record { access_token = "u1"; refresh_token = "new" }

change_password_done :
    change_password "u1" "secret" "better" sample_world ≡ (ok (ada, ada_tokens), changed)
unfolding change_password find_user find_first
change_password_done = refl

change_password-login_example :
    ((hash : String) × (ada.password_hash ≡ some hash)
      × (sample_crypto.verify hash "secret" ≡ true))
    × (Yields (login "ada@mail" "better") changed (λ t v. (t.user.id ≡ "u1") × (v.db ≡ changed.db))
        × ((other : String)
            → sample_crypto.verify (sample_crypto.hash 0 "better") other ≡ false
            → login "ada@mail" other changed ≡ (err (unauthorized "Invalid credentials"), changed)))
unfolding find_user find_by_email find_first
change_password-login_example =
    change_password-login ada "secret" "better" sample_world changed (ada, ada_tokens) law refl refl
      change_password_done
