-- ===== src/Effects.antt =====
-- What a service method does beside returning: it reads and writes the database, Redis, the outbox
-- and the object store, observes the outside world, and throws. An `await` runs to its end before the next line;
-- other requests may run only between two calls of a handler.
pub mod Laws
use nadbooks_backend.Prelude.{◌==◌, ℕ, suc, String, Bool, Option, none, some, List, if◌then◌else◌}
use nadbooks_backend.Prelude.Int.{ℤ}
use nadbooks_backend.Schema.{Db, Decimal, Book, Genre}

-- The exceptions of @nestjs/common, a plain `Error`, and the errors of the Prisma client: P2025
-- (the row to update is not there), P2002 (a unique column is taken), and refused arguments.
pub data Error : Type 0 where
  bad_request not_found unauthorized conflict forbidden plain external : String → Error
  too_many_requests : ℤ → Error
  record_not_found unique_violation invalid_argument : Error

pub data Result (A : Type 0) : Type 0 where
  ok : A → Result A
  err : Error → Result A

-- What src/auth/auth.service.ts keeps under a refresh token: the holder, and the epochs at issue (`none`
-- where `parseInt` made NaN, which JSON writes as null).
pub record Session : Type 0 where
  pub user_id : String
  pub user_epoch : Option ℕ
  pub global_epoch : Option ℕ

-- `{ code, sentAt }`, with the address or the user that the flow adds.
pub record CodeEntry : Type 0 where
  pub code : String
  pub sent_at : ℕ
  pub about : Option String

-- A book as clients see it: a row without `bookURL`, and its genre.
pub record BookView : Type 0 where
  pub row : Book
  pub genre : Option Genre

-- A value in Redis: a counter that INCR made, a plain text, or JSON written by `setJSON`.
pub data Value : Type 0 where
  count : ℕ → Value
  text : String → Value
  session : Session → Value
  code_entry : CodeEntry → Value
  book : BookView → Value
  books : List BookView → Value

-- A value with the time in milliseconds at which it expires, if it does.
pub record Entry : Type 0 where
  pub value : Value
  pub deadline : Option ℕ

pub record Mail : Type 0 where
  pub to : String
  pub template_name : String
  pub code : String

-- An object in a bucket of the object store.
pub data Bucket : Type 0 where
  private public : Bucket

pub record StoredObject : Type 0 where
  pub bucket : Bucket
  pub key : String

-- `session` is what the open interactive transaction sees and writes. `step` counts the
-- observations of the outside world.
pub record World : Type 0 where
  pub db : Db
  pub session : Db
  pub redis : String → Option Entry
  pub outbox : List Mail
  pub objects : List StoredObject
  pub step : ℕ

-- What the environment answers at each step: `Date.now()`, random values (uuid, tokens, codes),
-- the texts that decimal.js makes of its numbers (`valueOf`), and `NODE_ENV === 'development'`.
-- `weight` is the collation of the database, utf8mb4_unicode_ci of prisma/migrations: two texts are
-- equal in a query or a unique index if their weights are.
pub record Env : Type 0 where
  pub clock : ℕ → ℕ
  pub random : ℕ → String
  pub value_of : Decimal → String
  pub dev : Bool
  pub weight : String → String

-- Two texts that the database takes for the same.
abbrev pub same_text : ⦃env : Env⦄ → String → String → Bool
same_text ⦃env⦄ a b = env.weight a == env.weight b

abbrev pub Action : Type 0 → Type 0
Action A = World → Result A × World

abbrev pub Void : Type 0
Void = Unit {0}

module _ {A : Type 0} where
  abbrev pub pure : A → Action A
  pure a w = (ok a, w)

  abbrev pub throw : Error → Action A
  throw e w = (err e, w)

  abbrev pub gets : (World → A) → Action A
  gets f w = (ok (f w), w)

  abbrev pub or_throw : Option A → Error → Action A
  or_throw none e = throw e
  or_throw (some a) e = pure a

  -- One observation of the outside world.
  abbrev pub ask : (ℕ → A) → Action A
  ask f w = (ok (f w.step), record w { step = suc w.step })

  -- An answer of the outside world, which may be a rejection.
  abbrev pub request : (ℕ → Result A) → Action A
  request f w = (f w.step, record w { step = suc w.step })

infixl 5 ◌>>=◌ ◌>>◌
abbrev pub ◌>>=◌ : {A B : Type 0} → Action A → (A → Action B) → Action B
◌>>=◌ m f w = let (r, w') = m w in elim r [ ok a ↦ f a w' | err e ↦ (err e, w') ]

abbrev pub ◌>>◌ : {A B : Type 0} → Action A → Action B → Action B
m >> k = m >>= λ _. k

abbrev pub modify : (World → World) → Action Void
modify f w = (ok tt, f w)

abbrev pub throw_if : Bool → Error → Action Void
throw_if b e w = (if b then err e else ok tt, w)

-- `try { m } catch (e) { h(e) }`
abbrev pub catch : {A : Type 0} → Action A → (Error → Action A) → Action A
catch m h w = let (r, w') = m w in elim r [ ok a ↦ (ok a, w') | err e ↦ h e w' ]

-- The Prisma client that a method works with: `this.db`, or the `tx` of a `$transaction`.
pub data Client : Type 0 where
  main tx : Client

abbrev pub read : Client → World → Db
read main w = w.db
read tx w = w.session

abbrev pub write : Client → Db → World → World
write main d w = record w { db = d }
write tx d w = record w { session = d }

-- `this.db.$transaction(async (tx) => body)`: the body works on a copy, which is committed when
-- it returns and dropped when it throws.
abbrev pub transaction : {A : Type 0} → Action A → Action A
transaction body w =
    let (r, w') = body (record w { session = w.db }) in
    elim r [ ok a ↦ (ok a, record w' { db = w'.session }) | err e ↦ (err e, w') ]
