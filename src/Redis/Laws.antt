-- ===== src/Redis/Laws.antt =====
-- Reads after writes.
use nadbooks_backend.Prelude.{ℕ, ◌<◌, String, ◌≡◌, ◌≢◌, none, some, arith, eq_self, eq_ne}
use nadbooks_backend.Effects.{World, Env, Value, ok}
use nadbooks_backend.Redis.{get, set, del}

module _ ⦃env : Env⦄ where
  -- A deleted key is gone, and other keys are as they were.
  pub get-del_self : (key : String) (w : World) → get key (del key w).1 ≡ (ok none, (del key w).1)
  unfolding get del
  get-del_self key w = ground (arith, eq_self key)

  pub get-del_other : (key j : String) (w : World) → key ≢ j → (get j (del key w).1).0 ≡ (get j w).0
  unfolding get del
  get-del_other key j w ne = ground (arith, eq_ne key j ne)

  -- What was set is read back while its time to live lasts.
  pub get-set_self :
      (key : String) (value : Value) (ttl : ℕ) (w : World)
      → 0 < ttl
      → (get key (set key value ttl w).1).0 ≡ ok (some value)
  unfolding get set
  get-set_self key value ttl w positive = ground (arith, eq_self key)

  pub get-set_other :
      (key j : String) (value : Value) (ttl : ℕ) (w : World)
      → key ≢ j
      → (get j (set key value ttl w).1).0 ≡ (get j w).0
  unfolding get set
  get-set_other key j value ttl w ne = ground (arith, eq_ne key j ne)
