-- ===== src/Tests/Samples.antt =====
-- A small database, and an outside world that answers the same at each step.
use Prim.Native.String
use mathlib.Core.Bool.{false≢true}
use text.Mathlib.TextLemmas.{cons-append, head-eq_of_cons-eq}
use Prim.Native.Char.{code}
use nadbooks_backend.Prelude.{
  String, true, false, ◌*◌, ◌==◌, ◌≡◌, ◌≢◌, refl, sym, ◌∙◌, ap, arith, eq_iff, Option, none, some,
  [], ◌∷◌,
}
use nadbooks_backend.Prelude.Int.{pos, ◌*ℤ◌}
use nadbooks_backend.Schema.{
  Db, User, Wallet, Book, Genre, approved, Transaction, TransactionType, TransactionStatus,
  paystack, crypto, Role,
}
use nadbooks_backend.Effects.{World, Env, Entry, ok, err, external}
use nadbooks_backend.Auth.Crypto.{Crypto}
use nadbooks_backend.Auth.Google.{Google}
use nadbooks_backend.Books.{Library}
use nadbooks_backend.Auth.Sessions.Keys.{IsToken}
use nadbooks_backend.PriceFeed.{Markets}
use nadbooks_backend.Payments.Gateway.{Gateway, Receipt, Log}
use nadbooks_backend.Webhook.{Signing}

pub differ : (a b : String) → (a == b) ≡ false → a ≢ b
differ a b h e = false≢true (sym h ∙ (eq_iff a b).1 e)

instance abbrev pub sample_env : Env
sample_env = record {
  clock = λ n. n * 1000;
  random = λ n. "new";
  value_of = λ a. "5";
  dev = false;
  weight = λ text. text;
}

instance abbrev pub sample_crypto : Crypto
sample_crypto = record {
  hash = λ n text. text;
  verify = λ hash text. hash == text;
  sign = λ n payload. payload.sub;
  to_lower_case = λ text. text;
  refresh_token_ttl = 0;
  verification_code_ttl = 600;
}

instance abbrev pub sample_google : Google
sample_google = record { verify_id_token = λ n token. ok none; local_part = λ text. text }

instance abbrev pub sample_library : Library
sample_library = record {
  cache_ttl = 60;
  download_url_ttl = none;
  filters_json = λ filter. "filters";
  sorted = λ n order rows. rows;
  metadata_format = λ n buffer. ok true;
  to_jpeg = λ n buffer. ok buffer;
}

abbrev pub payment_log : Log
payment_log = record { address = "0xc"; bytes = "0x00" }

abbrev pub payment_receipt : Receipt
payment_receipt = record { block_number = 7; status = 1; logs = payment_log ∷ [] }

instance abbrev pub sample_gateway : Gateway
sample_gateway = record {
  initialize = λ n dto. ok (record { reference = dto.reference; authorization_url = "url" });
  verify_status = λ n reference. ok (some "success");
  transfer_recipient = λ n name number bank. ok "recipient";
  transfer = λ n input. ok "transfer";
  resolve_account = λ n number bank. ok "name";
  banks = λ n. ok [];
  contract_address = "0xc";
  receipt = λ n hash. ok (some payment_receipt);
  user_withdrawal = λ n address amount. ok "0xh";
  get_address = λ text. ok "0xs";
  big_int = λ text. ok 500;
  format_ether = λ n. "500";
  parse_ether = λ a. ok 500;
  to_lower_case = λ text. text;
  same_number = λ a text. true;
  decimal_of = λ text. pos 500;
  to_text = λ a. "500";
  timestamp = λ n. "20260101";
  short_user = λ user_id. "USER";
  unique = λ n. "1A2B";
}

instance abbrev pub sample_markets : Markets
sample_markets = record {
  mul = λ a b. a *ℤ b;
  div = λ a b. a;
  one = pos 1;
  parse_float = λ text. pos 2;
  to_text = λ a. "2";
  usdt_out = λ n. err (external "no route");
  books_out = λ n. err (external "no route");
  ngn_rate = λ n. ok (pos 1500);
  mock_price = pos 3;
  mock_books_price = pos 1;
}

instance abbrev pub sample_signing : Signing
sample_signing = record {
  paystack_digest = λ body. "digest";
  alchemy_secret = "secret";
  alchemy_digest = λ body. "digest";
  parse = λ body. err (external "Unexpected token");
}

abbrev pub ada : User
ada = record {
  id = "u1";
  first_name = "Ada";
  last_name = "Obi";
  username = "ada";
  email = "ada@mail";
  password_hash = some "secret";
  role = Role.user;
  is_active = true;
  is_verified = true;
  google_id = none;
  avatar_url = none;
  pin_hash = some "1234";
  pin_changed_at = none;
}

abbrev pub ada_wallet : Wallet
ada_wallet = record { id = "w1"; user_id = "u1"; balance = pos 900 }

abbrev pub deposit_row : Transaction
deposit_row = record {
  id = "t1";
  type = TransactionType.deposit;
  amount = pos 500;
  payment_method = paystack;
  sender_wallet_id = none;
  recipient_wallet_id = some "w1";
  reference = "DEP-1";
  hash = some "0xh";
  status = TransactionStatus.pending;
  metadata = none;
  order_id = none;
}

abbrev pub paid_row : Transaction
paid_row = record deposit_row {
  id = "t2";
  payment_method = crypto;
  reference = "DEP-2";
  hash = some "0xp";
  status = TransactionStatus.success;
}

abbrev pub withdrawal_row : Transaction
withdrawal_row = record deposit_row {
  id = "t3";
  type = TransactionType.withdrawal;
  sender_wallet_id = some "w1";
  reference = "WTH-1";
  hash = none;
}

abbrev pub sample_genre : Genre
sample_genre = record { id = "g1"; name = "Fiction" }

abbrev pub sample_book : Book
sample_book = record {
  id = "b1";
  title = "Title";
  genre_id = "g1";
  price = pos 5;
  is_mature = false;
  page_count = 0;
  book_url = "books/title.pdf";
  book_cover_url = "https://cdn/covers/title.jpg";
  date_authored = 0;
  date_uploaded = 0;
  author_id = "u2";
  is_deleted = false;
  deleted_by_id = none;
  date_reviewed = none;
  reviewed_by_id = none;
  status = approved;
}

abbrev pub sample_db : Db
sample_db = record {
  users = ada ∷ [];
  wallets = ada_wallet ∷ [];
  transactions = deposit_row ∷ paid_row ∷ withdrawal_row ∷ [];
  provider_responses = [];
  books = sample_book ∷ [];
  orders = [];
  order_books = [];
  role_changes = [];
  genres = sample_genre ∷ [];
  book_bookmarks = [];
  social_links = [];
}

abbrev pub empty_redis : String → Option Entry
empty_redis key = none

abbrev pub sample_world : World
sample_world = record {
  db = sample_db;
  session = sample_db;
  redis = empty_redis;
  outbox = [];
  objects = [];
  step = 0;
}

-- The text "new" is a token.
pub new-ne-user : (id : String) → "new" ≢ String.◌++◌ "epoch:user:" id
new-ne-user id e =
    let heads = head-eq_of_cons-eq (e ∙ cons-append _ "poch:user:" id) in
    absurd (omega (arith, ap code heads))

pub new-IsToken : IsToken "new"
new-IsToken = record { not_global = differ "new" "epoch:global" refl; not_user = new-ne-user }

pub old-ne-user : (id : String) → "old" ≢ String.◌++◌ "epoch:user:" id
old-ne-user id e =
    let heads = head-eq_of_cons-eq (e ∙ cons-append _ "poch:user:" id) in
    absurd (omega (arith, ap code heads))

pub old-IsToken : IsToken "old"
old-IsToken = record { not_global = differ "old" "epoch:global" refl; not_user = old-ne-user }
