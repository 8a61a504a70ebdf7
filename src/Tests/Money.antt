-- ===== src/Tests/Money.antt =====
-- The theorems on balances and prices at one wallet.
use nadbooks_backend.Prelude.{ℕ, refl, [], ◌∷◌, find_first, update_first}
use nadbooks_backend.Prelude.Int.{pos, ◌+ℤ◌, ◌<ℤ◌}
use nadbooks_backend.Effects.{World, main}
use nadbooks_backend.Wallet.{credit, find_wallet, set_wallet, add_balance}
use nadbooks_backend.Wallet.Balance.{Moved, credit-Moved}
use nadbooks_backend.Tests.Samples.{ada_wallet, sample_env, sample_markets, sample_world, sample_db}

abbrev with_balance : ℕ → World
with_balance n = record sample_world {
  db = record sample_db { wallets = (record ada_wallet { balance = pos n }) ∷ [] };
}

credit-Moved_example :
    (pos 0 <ℤ pos 500) × Moved "w1" (pos 500) (with_balance 900).db (with_balance 1400).db
unfolding credit find_wallet find_first set_wallet update_first ◌+ℤ◌
credit-Moved_example =
    credit-Moved "w1" (pos 500) main (with_balance 900) (add_balance (pos 500) ada_wallet)
      (with_balance 1400) refl
