-- ===== src/PriceFeed.antt =====
-- src/price-feed: conversions between BOOKS, NGN and MON, and the cached prices.
use nadbooks_backend.Prelude.{ℕ, String, Option, none, some, [], ◌∷◌, ◌==◌, if◌then◌else◌}
use nadbooks_backend.Schema.{Decimal, Metadata}
use nadbooks_backend.Effects.{Env, Value, Result, Action, Void, text, pure, request, ◌>>=◌, catch}
use nadbooks_backend.Redis.{get, set}

-- What the price feed takes from decimal.js, `parseFloat`, the chain and the rates API. `mul` and
-- `div` round as decimal.js does. The live answers may be rejections.
pub record Markets : Type 0 where
  pub mul : Decimal → Decimal → Decimal
  pub div : Decimal → Decimal → Decimal
  pub one : Decimal
  pub parse_float : String → Decimal
  pub to_text : Decimal → String
  pub usdt_out : ℕ → Result Decimal
  pub books_out : ℕ → Result Decimal
  pub ngn_rate : ℕ → Result Decimal
  pub mock_price : Decimal
  pub mock_books_price : Decimal

abbrev pub mon_usdt_key : String
mon_usdt_key = "price:mon:usdt"

abbrev pub usd_ngn_key : String
usd_ngn_key = "price:usd:ngn"

abbrev pub mon_usdt_ttl_seconds : ℕ
mon_usdt_ttl_seconds = 120

abbrev pub fiat_ttl_seconds : ℕ
fiat_ttl_seconds = 7200

pub data ConversionDirection : Type 0 where
  ngn_to_books books_to_ngn mon_to_books : ConversionDirection

pub record Converted : Type 0 where
  pub books_amount : Decimal
  pub context : Metadata

pub record Preview : Type 0 where
  pub from : String
  pub to : String
  pub amount_in : Decimal
  pub amount_out : Decimal
  pub context : Option Metadata

module _ ⦃env : Env⦄ ⦃markets : Markets⦄ where
  -- `DexPriceService.getMonPriceInUsdt`: any failure gives the mock price.
  unfoldable pub get_mon_price_in_usdt : Action Decimal
  get_mon_price_in_usdt = catch (request markets.usdt_out) (λ e. pure markets.mock_price)

  unfoldable pub get_books_price_in_usdt : Action Decimal
  get_books_price_in_usdt = catch (request markets.books_out) (λ e. pure markets.mock_books_price)

  unfoldable pub get_usd_to_ngn_rate : Action Decimal
  get_usd_to_ngn_rate = request markets.ngn_rate

  -- `if (cached) return parseFloat(cached)`, else the live price. Only texts are kept under the
  -- two keys.
  unfoldable pub cached_or : Option Value → Action Decimal → Action Decimal
  cached_or (some (text price)) live =
      if price == "" then live else pure (markets.parse_float price)
  cached_or _ live = live

  unfoldable pub get_mon_usdt_price : Action Decimal
  unfolding cached_or get get_mon_price_in_usdt
  get_mon_usdt_price = do cached ← get mon_usdt_key; cached_or cached get_mon_price_in_usdt

  unfoldable pub get_usd_ngn_rate : Action Decimal
  unfolding cached_or get get_usd_to_ngn_rate
  get_usd_ngn_rate = do cached ← get usd_ngn_key; cached_or cached get_usd_to_ngn_rate

  unfoldable pub fetch_books_per_ngn_rate : Action Decimal
  unfolding get_usd_ngn_rate
  fetch_books_per_ngn_rate = get_usd_ngn_rate

  unfoldable pub convert_ngn_to_books : Decimal → Action Decimal
  unfolding fetch_books_per_ngn_rate
  convert_ngn_to_books amount = do rate ← fetch_books_per_ngn_rate; pure (markets.mul amount rate)

  unfoldable pub convert_books_to_ngn : Decimal → Action Decimal
  unfolding fetch_books_per_ngn_rate
  convert_books_to_ngn amount = do
    rate ← fetch_books_per_ngn_rate
    pure (markets.mul amount (markets.div markets.one rate))

  abbrev pub converted : Decimal → Decimal → Decimal → Decimal → Converted
  converted mon_amount mon_usdt_price usd_ngn_rate books_amount = record {
    books_amount = books_amount;
    context =
        ("monAmount", markets.to_text mon_amount)
        ∷ ("monUsdtPrice", markets.to_text mon_usdt_price)
        ∷ ("usdNgnRate", markets.to_text usd_ngn_rate)
        ∷ ("booksAmount", markets.to_text books_amount)
        ∷ [];
  }

  -- The conversion once both prices are there.
  unfoldable pub convert_at : Decimal → Decimal → Decimal → Action Converted
  unfolding convert_ngn_to_books
  convert_at mon_amount mon_usdt_price usd_ngn_rate = do
    let mon_value_usdt = markets.mul mon_amount mon_usdt_price
    let ngn_value = markets.mul mon_value_usdt usd_ngn_rate
    books_amount ← convert_ngn_to_books ngn_value
    pure (converted mon_amount mon_usdt_price usd_ngn_rate books_amount)

  unfoldable pub convert_priced : Decimal → Decimal → Action Converted
  unfolding get_usd_ngn_rate convert_at
  convert_priced mon_amount mon_usdt_price =
      get_usd_ngn_rate >>= convert_at mon_amount mon_usdt_price

  unfoldable pub convert_mon_to_books : Decimal → Action Converted
  unfolding get_mon_usdt_price convert_priced
  convert_mon_to_books mon_amount = get_mon_usdt_price >>= convert_priced mon_amount

  unfoldable pub get_conversion_preview : Decimal → ConversionDirection → Action Preview
  unfolding convert_books_to_ngn convert_ngn_to_books convert_mon_to_books
  get_conversion_preview amount books_to_ngn = do
    out ← convert_books_to_ngn amount
    pure (record {
      from = "BOOKS";
      to = "NGN";
      amount_in = amount;
      amount_out = out;
      context = none;
    })
  get_conversion_preview amount ngn_to_books = do
    out ← convert_ngn_to_books amount
    pure (record {
      from = "NGN";
      to = "BOOKS";
      amount_in = amount;
      amount_out = out;
      context = none;
    })
  get_conversion_preview amount mon_to_books = do
    result ← convert_mon_to_books amount
    pure (record {
      from = "MON";
      to = "BOOKS";
      amount_in = amount;
      amount_out = result.books_amount;
      context = some result.context;
    })

  -- The pollers of price-cache.service.ts: a failure is logged, and the cache stays.
  unfoldable pub refresh_mon_usdt : Action Void
  unfolding get_mon_price_in_usdt set
  refresh_mon_usdt =
      catch
        (do
          price ← get_mon_price_in_usdt
          set mon_usdt_key (text (markets.to_text price)) mon_usdt_ttl_seconds)
        (λ e. pure tt)

  unfoldable pub refresh_usd_ngn : Action Void
  unfolding get_usd_to_ngn_rate set
  refresh_usd_ngn =
      catch
        (do
          rate ← get_usd_to_ngn_rate
          set usd_ngn_key (text (markets.to_text rate)) fiat_ttl_seconds)
        (λ e. pure tt)
