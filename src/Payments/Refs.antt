-- ===== src/Payments/Refs.antt =====
-- `generateRef` of src/helpers/functions.ts.
use Prim.Native.String
use nadbooks_backend.Prelude.{String}
use nadbooks_backend.Schema.{TransactionType, deposit, withdrawal, order}
use nadbooks_backend.Effects.{Action, ask, pure, ◌>>=◌}
use nadbooks_backend.Payments.Gateway.{Gateway}

abbrev pub prefix : TransactionType → String
prefix deposit = "DEP"
prefix withdrawal = "WTH"
prefix order = "ORD"

abbrev pub dashed : String → String → String
dashed a b = String.◌++◌ a (String.◌++◌ "-" b)

unfoldable pub generate_ref : ⦃gateway : Gateway⦄ → TransactionType → String → Action String
generate_ref ⦃gateway⦄ type user_id = do
  timestamp ← ask gateway.timestamp
  unique ← ask gateway.unique
  pure (dashed (prefix type) (dashed timestamp (dashed (gateway.short_user user_id) unique)))
