-- ===== src/Users/Roles/Hierarchy.antt =====
-- Who may change a role, and what is recorded of it.
use nadbooks_backend.Prelude.{
  suc, true, String, ◌≡◌, ◌≢◌, refl, some, arith, inl, inr, Option-cases, Bool-cases, ap, sym, ◌∙◌,
  ◌⊎◌,
}
use nadbooks_backend.Schema.{Role, User, RoleChange}
use nadbooks_backend.Effects.{World, Env, Result, Action, Void, ok, transaction}
use nadbooks_backend.Effects.Laws.{Result-cases, bind-ok, bind-err}
use nadbooks_backend.Users.Store.{find_user, set_user}
use nadbooks_backend.Users.Roles.{
  with_role, add_change, update_user_role, change_role, change_target, check_hierarchy, is_admin,
}

-- A super administrator may make any change; an administrator may only change a plain user, and
-- not to a super administrator.
abbrev pub MayChange : Role → Role → Role → Type 0
MayChange requester target new =
    (requester ≡ Role.super_admin)
    ⊎ ((requester ≡ Role.admin) × (target ≡ Role.user) × (new ≢ Role.super_admin))

module _ ⦃env : Env⦄ where
  abbrev pub the_change : String → Role → Role → String → World → RoleChange
  the_change requester_id from_role to_role target_id w = record {
    id = env.random w.step;
    from_role = from_role;
    to_role = to_role;
    changed_by_id = requester_id;
    user_id = target_id;
  }

  -- The guards leave the world alone, and pass only a change that is allowed.
  guards-MayChange :
      (role target new : Role) (w w' : World)
      → is_admin role ≡ true
      → check_hierarchy role target new w ≡ (ok tt, w')
      → MayChange role target new × (w' ≡ w)
  unfolding check_hierarchy
  guards-MayChange Role.user target new w w' senior passed = absurd (ground arith)
  guards-MayChange Role.super_admin target new w w' senior passed = (inl refl, ground arith)
  guards-MayChange Role.admin Role.user new w w' senior passed =
      (inr (refl, refl, λ e. ground arith), ground arith)
  guards-MayChange Role.admin Role.admin new w w' senior passed = absurd (ground arith)
  guards-MayChange Role.admin Role.super_admin new w w' senior passed = absurd (ground arith)

  change_role_run :
      (requester_id : String) (from_role new : Role) (target_id : String) (w : World) (user : User)
      → find_user target_id w.db ≡ some user
      → transaction (change_role requester_id from_role new target_id) w ≡ (
        ok (with_role new user),
        record w {
          db =
              add_change
                (the_change requester_id from_role new target_id w)
                (set_user target_id (with_role new) w.db);
          session =
              add_change
                (the_change requester_id from_role new target_id w)
                (set_user target_id (with_role new) w.db);
          step = suc w.step;
        },
      )
  unfolding change_role add_change
  change_role_run requester_id from_role new target_id w user found = ground arith

  seniors_only :
      (requester_id : String) (target_id : String) (role new : Role) (w w' : World) (r user : User)
      → find_user target_id w.db ≡ some user
      → update_user_role requester_id role target_id new w ≡ (ok r, w')
      → (is_admin role ≡ true) × (change_target requester_id role target_id new user w ≡ (ok r, w'))
  unfolding update_user_role
  seniors_only requester_id target_id role new w w' r user found done =
      elim (Bool-cases (is_admin role)) [
        | inl senior ↦ (senior, ground arith)
        | inr junior ↦ absurd (ground arith)
      ]

  target_found :
      (requester_id : String) (target_id : String) (role new : Role) (w w' : World) (r : User)
      → update_user_role requester_id role target_id new w ≡ (ok r, w')
      → (user : User) × (find_user target_id w.db ≡ some user)
  unfolding update_user_role
  target_found requester_id target_id role new w w' r done =
      elim (Option-cases (find_user target_id w.db)) [
        | inl missing ↦ absurd (ground arith)
        | inr found ↦ found
      ]

  -- A role is changed only of a user who is there, and only by who may, by the role that the request
  -- brings with it, not the one on record: a super administrator, or an administrator who makes a
  -- plain user something other than a super administrator, be it ADMIN or USER again. Then the
  -- database differs by the user's new role and by one record, which says who changed it from what
  -- to what.
  pub update_user_role_recorded :
      (requester_id : String) (role : Role) (target_id : String) (new : Role) (w w' : World)
      (r : User)
      → update_user_role requester_id role target_id new w ≡ (ok r, w')
      → (user : User) × (find_user target_id w.db ≡ some user)
        × MayChange role user.role new
        × (r ≡ with_role new user)
        × (w'.db
            ≡ add_change
                (the_change requester_id user.role new target_id w)
                (set_user target_id (with_role new) w.db))
  unfolding change_target
  update_user_role_recorded requester_id role target_id new w w' r done =
      let (user, found) = target_found requester_id target_id role new w w' r done in
      let (senior, made) = seniors_only requester_id target_id role new w w' r user found done in
      let m = check_hierarchy role user.role new in
      let f : Void → Action User =
        λ done. transaction (change_role requester_id user.role new target_id) in
      elim (Result-cases (m w).0) [
        | inr (x, e) ↦ absurd (cc (bind-err m f w x e, made))
        | inl (passed, e) ↦
            let (may, kept) =
              guards-MayChange role user.role new w (m w).1 senior
                (ap (λ (r : Result Void). (r, (m w).1)) e) in
            let run = change_role_run requester_id user.role new target_id w user found in
            let all =
              sym made
              ∙ bind-ok m f w passed e
              ∙ ap (transaction (change_role requester_id user.role new target_id)) kept
              ∙ run in
            (user, found, may, cc all, ap (λ (p : Result User × World). p.1.db) all)
      ]
