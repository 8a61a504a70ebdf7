-- ===== src/Auth/Crypto.antt =====
-- What src/auth/auth.service.ts takes from argon2, the JWT service, the configuration and the
-- JavaScript text functions.
use nadbooks_backend.Prelude.{ℕ, String, Bool}
use nadbooks_backend.Schema.{Role, User}

-- src/types/jwt.type.ts
pub record JwtPayload : Type 0 where
  pub sub : String
  pub username : String
  pub email : String
  pub role : Role
  pub is_verified : Bool

-- `hash` and `sign` read fresh randomness or the clock at the step at which they run.
pub record Crypto : Type 0 where
  pub hash : ℕ → String → String
  pub verify : String → String → Bool
  pub sign : ℕ → JwtPayload → String
  pub to_lower_case : String → String
  pub refresh_token_ttl : ℕ
  pub verification_code_ttl : ℕ

abbrev pub payload_of : User → JwtPayload
payload_of user = record {
  sub = user.id;
  username = user.username;
  email = user.email;
  role = user.role;
  is_verified = user.is_verified;
}
