-- ===== src/Tests/Sessions.antt =====
-- The theorems on sessions at a session of one user.
use nadbooks_backend.Prelude.{ℕ, ◌≡◌, ◌≢◌, refl, inr, some, none, arith, find_first}
use nadbooks_backend.Effects.{World, Entry, Session, ok, err, unauthorized, count, session}
use nadbooks_backend.Redis.{assign}
use nadbooks_backend.Users.Store.{find_user}
use nadbooks_backend.Auth.Sessions.{
  token_key, user_epoch_key, refresh, logout, revoke_user_sessions, revoke_all_sessions, Tokens,
}
use nadbooks_backend.Auth.Sessions.Rotation.{refresh_once}
use nadbooks_backend.Auth.Sessions.Forever.{Fresh, Reach, here, next, logs_out, revoked_forever}
use nadbooks_backend.Auth.Sessions.Erasure.{logout_undoes_revocation}
use nadbooks_backend.Tests.Samples.{
  ada, sample_env, sample_crypto, sample_world, empty_redis, differ, old-IsToken, new-IsToken,
}

abbrev held : Session
held = record { user_id = "u1"; user_epoch = some 2; global_epoch = some 0 }

abbrev lasting : Session → Entry
lasting s = record { value = session s; deadline = none }

abbrev counter : ℕ → Entry
counter n = record { value = count n; deadline = none }

-- The user's epoch is 2, and the global one is `n`.
abbrev signed_in : ℕ → World
signed_in n = record sample_world {
  redis = assign "refresh:old" (some (lasting held)) (
      assign "refresh:epoch:user:u1" (some (counter 2))
        (assign "refresh:epoch:global" (some (counter n)) empty_redis));
}

refresh_once_example :
    refresh "old" (refresh "old" (signed_in 0)).1
    ≡ (err (unauthorized "Invalid or expired refresh token"), (refresh "old" (signed_in 0)).1)
refresh_once_example = refresh_once "old" (signed_in 0) (differ "new" "old" refl)

-- A session with its time to live; nobody has revoked all sessions.
abbrev unrevoked : World
unrevoked = record sample_world {
  redis =
      assign "refresh:old" (some (record { value = session held; deadline = some 604800000 }))
        (assign "refresh:epoch:user:u1" (some (counter 2)) empty_redis);
}

abbrev ended : World
ended = (revoke_all_sessions unrevoked).1

logout_undoes_revocation_example :
    ((refresh "old" ended).0 ≡ err (unauthorized "Session has been revoked"))
    × ((refresh "old" (logout "epoch:global" ended).1).0
        ≡ ok (record { access_token = "u1"; refresh_token = "new" }))
unfolding token_key user_epoch_key find_user find_first
logout_undoes_revocation_example =
    logout_undoes_revocation "old" held unrevoked 2 ada old-IsToken refl refl refl refl refl refl

fresh : Fresh "old" (signed_in 0)
fresh n later = (new-IsToken, differ "new" "old" refl)

abbrev revoked_world : World
revoked_world = (revoke_user_sessions "u1" (signed_in 0)).1

left : Reach revoked_world (logout "new" revoked_world).1
left = next here (logs_out "new" new-IsToken refl)

abbrev some_tokens : Tokens
some_tokens = record { access_token = "u1"; refresh_token = "new" }

revoked_forever_example : (refresh "old" (logout "new" revoked_world).1).0 ≢ ok some_tokens
unfolding token_key user_epoch_key
revoked_forever_example =
    revoked_forever "old" held (signed_in 0) (lasting held) 2 2 old-IsToken fresh refl refl
      (inr refl) refl (omega arith) left some_tokens
