-- ===== src/Lib.antt =====
-- A model of the Nadbooks backend, the NestJS server of a shop for books, with theorems about its
-- accounts, its books and their files, its money and its payments.
--
-- The parts, and the file of each:
--   Schema         the tables of prisma/schema.prisma, a record to a row, a list of rows to a table
--   Effects        what a method does: it reads and writes the database, Redis, the object store
--                  and the outbox, asks the outside world, returns or throws; `$transaction` works
--                  on a copy that is committed or dropped; Effects/Laws has the rules to reason
--                  about such methods
--   Prelude        library names, list and option lemmas, whole numbers, rulesets
--   Redis          src/redis/redis.service.ts, keys with values and expiry times
--   Email          src/email/email.service.ts, the queue of mails
--   Mime           src/common/mime.ts, file types by their first bytes
--   Storage        src/storage: the service, and the R2 provider over two buckets (Storage/R2)
--   Wallet         src/wallet/wallet.service.ts, balances; Wallet/Balance relates the databases
--                  before and after, Wallet/Ledger has the abstract ledger
--   Users          of src/users/users.service.ts: the table of users (Store), changes of role
--                  (Roles), profile, avatar and links (Profile), activation (Administration)
--   Auth           of src/auth/auth.service.ts: registration, login and Google sign-in (Accounts),
--                  Passwords, the Google link (Google), verification codes (Codes), change of
--                  address (EmailChange), the PIN of withdrawals (Pin) and its reset (PinReset),
--                  refresh tokens (Sessions); the guards and strategies of src/auth (Guards)
--   Genre          src/genre/genre.service.ts
--   Books          src/books/books.service.ts: Reading (listings, cache, bookmarks, downloads),
--                  Uploads (new books and edits with their files), Moderation (deletion, banning,
--                  restoring, review)
--   PriceFeed      src/price-feed, conversions and the price cache
--   Payments       src/payments: Transactions and Orders (shared services), Deposit, Withdrawal and
--                  Checkout (order-payment), each with its providers
--   Webhook        src/webhook: the service, the controller and the delayed queue
--   Stats          src/admin/services/admin-stats.service.ts, the figures of the dashboard
--   Tests          sample values, and the theorems applied to them
-- Each has child modules for what is proved of it.
--
-- Checkout calls Wallet, Orders and Transactions inside one database transaction; Deposit and
-- Withdrawal call Wallet and Transactions; the queue hands events to Webhook, which calls Deposit
-- and Withdrawal; Books calls Genre, Mime and Storage, and reads the orders to grant a download;
-- Accounts, Passwords and EmailChange issue tokens through Sessions; codes, sessions, the PIN lock,
-- prices and cached books are kept in Redis.
--
-- An async method is a function from the world to a result and the next world. Another request may
-- run only between two calls of a handler: interleavings inside one handler are not modelled.
-- Decimals are whole numbers of units of 10^-30. What the code takes from elsewhere is a parameter:
-- `Env` (clock, random values, the texts of decimal.js, isDev, and the weights by which the
-- database's collation compares addresses, names and titles; ids, references and keys are compared
-- exactly), `Crypto` (argon2, JWT, lower case),
-- `Gateway` (Paystack, the chain, ethers), `Markets` (prices, decimal arithmetic), `Signing` (HMAC,
-- JSON.parse), `Google` (ID tokens), `Jwt` (verified payloads), `Library` (the order of a listing,
-- JSON.stringify, sharp), `Provider` and `R2` (the object store, names of objects). The R2 provider
-- is modelled with a public bucket of its own, as R2_PUBLIC_BUCKET sets it. No loop needs fuel: each
-- is structural, over the rows or the jobs that it is given. A poll of the queue handles the jobs
-- that are due when it starts.
--
-- Not modelled: the list of banks that src/payments/withdrawal caches; the Dropbox provider; the
-- worker that sends the queued mails; `updateUser` of
-- src/users/users.service.ts, which writes any payload; routing, validators and exception filters;
-- log lines; the timers that start the polls.
pub mod Prelude
pub mod Mime
pub mod Schema
pub mod Storage
pub mod Genre
pub mod Books
pub mod Email
pub mod Effects
pub mod Redis
pub mod Wallet
pub mod Users
pub mod PriceFeed
pub mod Payments
pub mod Webhook
pub mod Auth
pub mod Tests
pub mod Stats
