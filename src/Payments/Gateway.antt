-- ===== src/Payments/Gateway.antt =====
-- What the payment services take from Paystack, the chain, ethers and the JavaScript library: the
-- shapes of src/payments/*/interfaces/provider.interface.ts and an interface that a model of the
-- outside world fills. The answers at a step may be rejections.
use nadbooks_backend.Prelude.{ℕ, String, Bool, Option, List}
use nadbooks_backend.Schema.{Decimal, Metadata}
use nadbooks_backend.Effects.{Result}

pub data PaymentStatus : Type 0 where
  pending success failed : PaymentStatus

pub record DepositResult : Type 0 where
  pub status : PaymentStatus
  pub reference : Option String
  pub payment_url : Option String
  pub destination_address : Option String
  pub amount : Option Decimal
  pub currency : Option String

-- `PaystackDepositDto`, which is what `transaction/initialize` is sent.
pub record PaystackDeposit : Type 0 where
  pub amount : Decimal
  pub email : String
  pub reference : String
  pub metadata : Metadata

pub record Initialized : Type 0 where
  pub reference : String
  pub authorization_url : String

pub record VerifyInput : Type 0 where
  pub reference : Option String
  pub hash : Option String
  pub buyer_address : Option String
  pub transfered_amount : Option Decimal

-- What `verifyPayment` returns. No provider sets `success`.
pub record Verification : Type 0 where
  pub status : PaymentStatus
  pub success : Option Bool
  pub decoded_sender : Option String
  pub decoded_amount : Option String

pub record Log : Type 0 where
  pub address : String
  pub bytes : String

-- A receipt of the chain; `block_number` is 0 while it is not mined, `status` 0 when reverted.
pub record Receipt : Type 0 where
  pub block_number : ℕ
  pub status : ℕ
  pub logs : List Log

pub record PaystackWithdrawal : Type 0 where
  pub amount : Decimal
  pub reason : String
  pub account_number : String
  pub bank_code : String
  pub name : String

pub record CryptoWithdrawal : Type 0 where
  pub amount : Decimal
  pub reference : String
  pub reciever_address : String

-- The body of a Paystack transfer, its amount in kobo.
pub record Transfer : Type 0 where
  pub amount : Decimal
  pub recipient : String
  pub reason : String

pub record Bank : Type 0 where
  pub name : String
  pub code : String

pub record Gateway : Type 0 where
  -- Paystack.
  pub initialize : ℕ → PaystackDeposit → Result Initialized
  pub verify_status : ℕ → Option String → Result (Option String)
  pub transfer_recipient : ℕ → String → String → String → Result String
  pub transfer : ℕ → Transfer → Result String
  pub resolve_account : ℕ → String → String → Result String
  pub banks : ℕ → Result (List Bank)
  -- The chain: receipts, and a confirmed `user_withdrawal` with its hash.
  pub contract_address : String
  pub receipt : ℕ → Option String → Result (Option Receipt)
  pub user_withdrawal : ℕ → String → ℕ → Result String
  -- ethers: `getAddress`, `BigInt` of hexadecimal text, `formatEther`, `parseEther`.
  pub get_address : String → Result String
  pub big_int : String → Result ℕ
  pub format_ether : ℕ → String
  pub parse_ether : Decimal → Result ℕ
  -- The JavaScript library: `toLowerCase`, `Number(a) === Number(b)`, `new Decimal(text)`, and the
  -- parts of `generateRef` (the timestamp, `userId.slice(-4).toUpperCase()`, the random tail).
  pub to_lower_case : String → String
  pub same_number : Decimal → String → Bool
  pub decimal_of : String → Decimal
  pub to_text : Decimal → String
  pub timestamp : ℕ → String
  pub short_user : String → String
  pub unique : ℕ → String
