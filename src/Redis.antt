-- ===== src/Redis.antt =====
-- src/redis/redis.service.ts, over a Redis that keeps a value and an expiry time for each key.
pub mod Laws
use nadbooks_backend.Prelude.{
  ℕ, suc, ◌+◌, ◌*◌, String, Bool, true, false, ◌==◌, Option, none, some, ltb, eqb, if◌then◌else◌,
}
use nadbooks_backend.Effects.{
  World, Env, Entry, Value, Session, CodeEntry, Action, Void, ok, err, external, count, session,
  code_entry, text, pure, throw, gets, ◌>>=◌, modify,
}

-- The time at which an entry set now with a TTL in seconds expires.
abbrev pub deadline_after : ℕ → ℕ → ℕ
deadline_after now ttl = now + ttl * 1000

abbrev pub is_live : ℕ → Entry → Bool
is_live now entry = elim entry.deadline [ none ↦ true | some t ↦ ltb now t ]

-- An expired entry is not there.
abbrev pub live : ℕ → Option Entry → Option Entry
live now none = none
live now (some entry) = if is_live now entry then some entry else none

abbrev pub assign : String → Option Entry → (String → Option Entry) → String → Option Entry
assign key entry store j = if key == j then entry else store j

-- `redis.get(key)`, as the entry that is there now.
abbrev pub lookup : ⦃env : Env⦄ → String → World → Option Entry
lookup ⦃env⦄ key w = live (env.clock w.step) (w.redis key)

abbrev pub value_at : ⦃env : Env⦄ → String → World → Option Value
value_at key w = elim (lookup key w) [ none ↦ none | some entry ↦ some entry.value ]

unfoldable pub get : ⦃env : Env⦄ → String → Action (Option Value)
get key w = (ok (value_at key w), w)

-- A TTL of 0 is falsy: the entry is set without one.
unfoldable pub set : ⦃env : Env⦄ → String → Value → ℕ → Action Void
set ⦃env⦄ key value ttl = modify (λ w. record w {
  redis =
      assign key
        (some (record {
          value = value;
          deadline = if eqb ttl 0 then none else some (deadline_after (env.clock w.step) ttl);
        }))
        w.redis;
})

unfoldable pub del : String → Action Void
del key = modify (λ w. record w { redis = assign key none w.redis })

-- Sets the time to live of an entry that is there.
unfoldable pub expire : ⦃env : Env⦄ → String → ℕ → Action Void
expire ⦃env⦄ key ttl = modify (λ w. record w {
  redis =
      assign key
        (elim (lookup key w) [
          | none ↦ none
          | some entry ↦
              some (record entry { deadline = some (deadline_after (env.clock w.step) ttl) })
        ])
        w.redis;
})

-- INCR: a missing counter starts at 0 and has no TTL; a value that is no integer is an error.
unfoldable pub incr : ⦃env : Env⦄ → String → Action ℕ
incr key w = elim (lookup key w) [
  | none ↦ (
    ok 1,
    record w { redis = assign key (some (record { value = count 1; deadline = none })) w.redis },
  )
  | some entry ↦ elim entry.value [
    | count n ↦ (
      ok (suc n),
      record w { redis = assign key (some (record entry { value = count (suc n) })) w.redis },
    )
    | _ ↦ (err (external "value is not an integer"), w)
  ]
]

-- `v ? parseInt(v, 10) : 0` at a counter; other texts are NaN, which no epoch equals.
abbrev pub as_count : Option Value → Option ℕ
as_count none = some 0
as_count (some (count n)) = some n
as_count (some _) = none
