-- ===== src/Tests/Users.antt =====
-- The theorem on roles at one promotion and at one that changes nothing.
use nadbooks_backend.Prelude.{◌≡◌, refl, some, find_first}
use nadbooks_backend.Schema.{Role, User}
use nadbooks_backend.Effects.{World, ok}
use nadbooks_backend.Users.Store.{find_user, set_user}
use nadbooks_backend.Users.Roles.{update_user_role, with_role, add_change}
use nadbooks_backend.Users.Roles.Hierarchy.{MayChange, the_change, update_user_role_recorded}
use nadbooks_backend.Tests.Samples.{ada, sample_env, sample_world, sample_db}

abbrev promoted : World
promoted = (update_user_role "u9" Role.admin "u1" Role.admin sample_world).1

done :
    update_user_role "u9" Role.admin "u1" Role.admin sample_world
    ≡ (ok (with_role Role.admin ada), promoted)
unfolding update_user_role find_user find_first
done = refl

update_user_role_recorded_example :
    (user : User) × (find_user "u1" sample_db ≡ some user)
    × MayChange Role.admin user.role Role.admin
    × (with_role Role.admin ada ≡ with_role Role.admin user)
    × (promoted.db
        ≡ add_change
            (the_change "u9" user.role Role.admin "u1" sample_world)
            (set_user "u1" (with_role Role.admin) sample_db))
update_user_role_recorded_example =
    update_user_role_recorded "u9" Role.admin "u1" Role.admin sample_world promoted
      (with_role Role.admin ada) done
