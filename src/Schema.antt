-- ===== src/Schema.antt =====
-- The tables of prisma/schema.prisma that the services read and write, one record to a row and one
-- list of rows to a table. Ids, references and hashes are texts, which the code only compares and
-- joins. A `Decimal` column, DECIMAL(65, 30) in prisma/migrations, is the whole number of units of
-- 10^-30; dates are milliseconds. Left out are the columns `createdAt` and `updatedAt`, and
-- `description` and `reason` of a transaction, which no service writes.
use nadbooks_backend.Prelude.{ℕ, ◌+◌, ◌-◌, ◌*◌, String, Bool, true, false, Option, List}
use nadbooks_backend.Prelude.Int.{ℤ, pos, negsuc}

pub data Role : Type 0 where
  user admin super_admin : Role

pub data TransactionType : Type 0 where
  deposit withdrawal order : TransactionType

pub data PaymentMethod : Type 0 where
  paystack crypto wallet : PaymentMethod

pub data TransactionStatus : Type 0 where
  pending success failed : TransactionStatus

pub data OrderStatus : Type 0 where
  pending paid failed cancelled completed : OrderStatus

pub data BookStatus : Type 0 where
  pending_approval approved rejected : BookStatus

pub data SocialPlatform : Type 0 where
  instagram twitter facebook : SocialPlatform

abbrev pub Decimal : Type 0
Decimal = ℤ

-- The units in one, 10^30.
abbrev pub unit : ℕ
unit = 1_000_000_000_000_000_000_000_000_000_000

-- `new Decimal(n)` at a whole number.
unfoldable pub of_int : ℤ → Decimal
of_int (pos n) = pos (n * unit)
of_int (negsuc n) = negsuc (n * unit + (unit - 1))

-- A JSON object with text fields.
abbrev pub Metadata : Type 0
Metadata = List (String × String)

pub record User : Type 0 where
  pub id : String
  pub first_name : String
  pub last_name : String
  pub username : String
  pub email : String
  pub password_hash : Option String
  pub role : Role
  pub is_active : Bool
  pub is_verified : Bool
  pub google_id : Option String
  pub avatar_url : Option String
  pub pin_hash : Option String
  pub pin_changed_at : Option ℕ

pub record Wallet : Type 0 where
  pub id : String
  pub user_id : String
  pub balance : Decimal

pub record Transaction : Type 0 where
  pub id : String
  pub type : TransactionType
  pub amount : Decimal
  pub payment_method : PaymentMethod
  pub sender_wallet_id : Option String
  pub recipient_wallet_id : Option String
  pub reference : String
  pub hash : Option String
  pub status : TransactionStatus
  pub metadata : Option Metadata
  pub order_id : Option String

pub record ProviderResponse : Type 0 where
  pub id : String
  pub transaction_id : Option String
  pub provider : PaymentMethod
  pub reference : String
  pub response : String

pub record Book : Type 0 where
  pub id : String
  pub title : String
  pub genre_id : String
  pub price : ℤ
  pub is_mature : Bool
  pub page_count : ℕ
  pub book_url : String
  pub book_cover_url : String
  pub date_authored : ℕ
  pub date_uploaded : ℕ
  pub author_id : String
  pub is_deleted : Bool
  pub deleted_by_id : Option String
  pub date_reviewed : Option ℕ
  pub reviewed_by_id : Option String
  pub status : BookStatus

pub record Genre : Type 0 where
  pub id : String
  pub name : String

pub record BookBookmark : Type 0 where
  pub user_id : String
  pub book_id : String

pub record SocialLink : Type 0 where
  pub id : String
  pub user_id : String
  pub platform : SocialPlatform
  pub url : String

pub record Order : Type 0 where
  pub id : String
  pub user_id : String
  pub status : OrderStatus
  pub total_amount : ℤ

pub record OrderBook : Type 0 where
  pub id : String
  pub order_id : String
  pub book_id : String
  pub price : ℤ
  pub author_id : String

pub record RoleChange : Type 0 where
  pub id : String
  pub from_role : Role
  pub to_role : Role
  pub changed_by_id : String
  pub user_id : String

pub record Db : Type 0 where
  pub users : List User
  pub wallets : List Wallet
  pub transactions : List Transaction
  pub provider_responses : List ProviderResponse
  pub books : List Book
  pub orders : List Order
  pub order_books : List OrderBook
  pub role_changes : List RoleChange
  pub genres : List Genre
  pub book_bookmarks : List BookBookmark
  pub social_links : List SocialLink

abbrev pub is_pending : TransactionStatus → Bool
is_pending TransactionStatus.pending = true
is_pending _ = false

abbrev pub same_method : PaymentMethod → PaymentMethod → Bool
same_method paystack paystack = true
same_method crypto crypto = true
same_method wallet wallet = true
same_method _ _ = false

abbrev pub same_type : TransactionType → TransactionType → Bool
same_type deposit deposit = true
same_type withdrawal withdrawal = true
same_type order order = true
same_type _ _ = false

abbrev pub same_role : Role → Role → Bool
same_role user user = true
same_role admin admin = true
same_role super_admin super_admin = true
same_role _ _ = false

abbrev pub same_book_status : BookStatus → BookStatus → Bool
same_book_status pending_approval pending_approval = true
same_book_status approved approved = true
same_book_status rejected rejected = true
same_book_status _ _ = false

abbrev pub same_platform : SocialPlatform → SocialPlatform → Bool
same_platform instagram instagram = true
same_platform twitter twitter = true
same_platform facebook facebook = true
same_platform _ _ = false
