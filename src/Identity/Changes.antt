-- ===== src/Identity/Changes.antt =====
-- The ways in which a step changes the users, and that every step goes one of them.
use gu_gu_manager.Base.{
  ℕ, ◌≤◌, ◌≡◌, ◌⊎◌, inl, inr, refl, subst, sym, String, true, false, ◌&&◌, none, some, [], ◌∷◌, leb,
  arith, Bool-cases, Option-cases,
}
use gu_gu_manager.Base.Maps.{Assoc, lookup, insert}
use gu_gu_manager.Base.Calls.{Result-cases, ok, ◌>>=◌, require}
use gu_gu_manager.Identity.State.{
  User, StoredUser, PasswordResetRecord, Identities, Platform, record_audit,
}
use gu_gu_manager.Identity.Access.{
  is_active, is_active_admin, is_admin_entry, has_role, require_platform_admin,
}
use gu_gu_manager.Identity.Users.{
  finish_setup, no_one, validate_setup, new_user, admin_added, add_user, finish_create_user,
  user_created, revoke_user_sessions, revoke_password_reset_tokens, active_admin_count,
}
use gu_gu_manager.Identity.Updates.{
  UpdateUserInput, finish_update_user, user_updated, updated_user, revoke_inactive,
  removes_active_admin,
}
use gu_gu_manager.Identity.Runs.{
  Step, set_up, create, update, issue_reset, check_reset, renew, log_in, authenticate, recover,
  log_out, create_token, revoke_token, use_token, issue_console, use_console, put_member,
  delete_member, issue_enrollment, use_enrollment, revoke, perform, IsFresh,
}
use gu_gu_manager.Identity.Resets.{
  validate_reset_token, usable_reset, finish_reset_password, password_reset,
}
use gu_gu_manager.Identity.Effects.{
  SameUsers, issue_reset-SameUsers, check_reset-SameUsers, login-SameUsers, authenticate-SameUsers,
  recover-SameUsers, logout-SameUsers, create_token-SameUsers, revoke_token-SameUsers,
  use_token-SameUsers, issue_console-SameUsers, use_console-SameUsers, put_member-SameUsers,
  delete_member-SameUsers, issue_enrollment-SameUsers, use_enrollment-SameUsers, revoke-SameUsers,
}

-- Each user stands under its id.
abbrev pub IsKeyed : Assoc StoredUser → Type 0
IsKeyed users = (id : String) (u : StoredUser) → lookup id users ≡ some u → u.user.id ≡ id

-- A step leaves the users, adds one with a new address, or changes one that keeps its id and its
-- address, and that ceases to be an active administrator only when there is another.
pub data Effect (s s' : Identities) : Type 0 where
  same : SameUsers s s' → Effect s s'
  added :
      (u : StoredUser)
      → lookup u.user.id s.users ≡ none
      → (s.users ≡ []) ⊎ (lookup u.user.email s.user_by_email ≡ none)
      → s'.users ≡ insert u.user.id u s.users
      → s'.user_by_email ≡ insert u.user.email u.user.id s.user_by_email
      → Effect s s'
  changed :
      (id : String) (u u' : StoredUser)
      → lookup id s.users ≡ some u
      → (u'.user.id ≡ u.user.id) × (u'.user.email ≡ u.user.email)
      → ((is_active_admin u ≡ true) → (is_active_admin u' ≡ false) → 2 ≤ active_admin_count s.users)
      → s'.users ≡ insert id u' s.users
      → s'.user_by_email ≡ s.user_by_email
      → Effect s s'

create-Effect :
    (s : Identities) (actor : User) (phc : String) (user : User)
    → lookup user.id s.users ≡ none
    → Effect s (finish_create_user actor phc user s).1
unfolding finish_create_user require_platform_admin require ◌>>=◌ user_created add_user record_audit
create-Effect s actor phc user new = elim (Bool-cases (is_admin_entry (lookup actor.id s.users))) [
  | inl admin ↦ elim (Option-cases (lookup user.email s.user_by_email)) [
    | inl free ↦
        rw (admin, free)
          (Effect.added (record { user = user; password_phc = phc }) new (inr free) refl refl)
    | inr (id, taken) ↦ rw (admin, taken) (Effect.same (refl, refl))
  ]
  | inr other ↦ rw other (Effect.same (refl, refl))
]

no_one→nil : (users : Assoc StoredUser) → no_one users ≡ true → users ≡ []
no_one→nil [] e = refl
no_one→nil (x ∷ xs) e = absurd (ground arith)

pub validate_setup-ok :
    (provided : String) (now : ℕ) (s : Identities) (x : Unit {0})
    → validate_setup provided now s ≡ ok x
    → s.users ≡ []
unfolding validate_setup
validate_setup-ok provided now s x e = elim (Bool-cases (no_one s.users)) [
  | inl empty ↦ no_one→nil s.users empty
  | inr full ↦ absurd (ground arith)
]

set_up-Effect :
    (s : Identities) (id email name phc provided : String) (now : ℕ)
    → lookup id s.users ≡ none
    → Effect s (finish_setup id email name phc provided now s).1
unfolding finish_setup ◌>>=◌ admin_added new_user add_user record_audit
set_up-Effect s id email name phc provided now new =
    elim (Result-cases (validate_setup provided now s)) [
      | inl (x, accepted) ↦
          rw accepted
            (Effect.added _ new (inl (validate_setup-ok provided now s x accepted)) refl refl)
      | inr (e, refused) ↦ rw refused (Effect.same (refl, refl))
    ]

revoke_inactive-SameUsers :
    (id : String) (u : StoredUser) (s : Identities) → SameUsers s (revoke_inactive id u s)
unfolding revoke_inactive revoke_user_sessions revoke_password_reset_tokens
revoke_inactive-SameUsers id u s = ground arith

-- One who ceases to be an active administrator is seen by the test.
removes_lem :
    (change : UpdateUserInput) (now : ℕ) (u : StoredUser)
    → is_active_admin u ≡ true
    → is_active_admin (updated_user change now u) ≡ false
    → removes_active_admin change u ≡ true
unfolding is_active_admin removes_active_admin updated_user is_active has_role
removes_lem change now u before after = ground arith

update-Effect :
    (s : Identities) (user_id : String) (change : UpdateUserInput) (actor : User) (now : ℕ)
    → Effect s (finish_update_user user_id change actor now s).1
unfolding finish_update_user require_platform_admin require ◌>>=◌ user_updated record_audit
update-Effect s user_id change actor now =
    elim (Bool-cases (is_admin_entry (lookup actor.id s.users))) [
      | inl admin ↦ elim (Option-cases (lookup user_id s.users)) [
        | inl missing ↦ rw (admin, missing) (Effect.same (refl, refl))
        | inr (u, found) ↦
            elim (Bool-cases
              (removes_active_admin change u && leb (active_admin_count s.users) 1)) [
                | inl last ↦ rw (admin, found, last) (Effect.same (refl, refl))
                | inr more ↦
                    rw (admin, found, more)
                      (Effect.changed user_id u (updated_user change now u) found (refl, refl)
                        (λ before after. ground (arith, removes_lem change now u before after))
                        (revoke_inactive-SameUsers user_id (updated_user change now u) (record s {
                          users = insert user_id (updated_user change now u) s.users;
                        })).0
                        (revoke_inactive-SameUsers user_id (updated_user change now u) (record s {
                          users = insert user_id (updated_user change now u) s.users;
                        })).1)
              ]
      ]
      | inr other ↦ rw other (Effect.same (refl, refl))
    ]

module _ (digest : String) (now : ℕ) (s : Identities) where
  pub usable_reset-known :
      (r : PasswordResetRecord) (u : StoredUser)
      → usable_reset digest now s ≡ some (r, u)
      → lookup r.user_id s.users ≡ some u
  unfolding usable_reset
  usable_reset-known r u e = ground arith

  reset-Effect :
      (phc : String) → IsKeyed s.users → Effect s (finish_reset_password digest phc now s).1
  unfolding finish_reset_password validate_reset_token ◌>>=◌ password_reset revoke_user_sessions
      record_audit is_active_admin is_active
  reset-Effect phc keyed = elim (Option-cases (usable_reset digest now s)) [
    | inl unusable ↦ rw (unusable, validate_reset_token) (Effect.same (refl, refl))
    | inr ((r, u), usable) ↦
        let known = usable_reset-known r u usable in
        rw (usable, validate_reset_token)
          (Effect.changed u.user.id u
            (record u { user = record u.user { updated_at = now }; password_phc = phc })
            (subst (λ k. lookup k s.users ≡ some u) (sym (keyed r.user_id u known)) known)
            (refl, refl) (λ before after. absurd (ground arith)) refl refl)
  ]

-- Every step has one of the three effects.
pub perform-Effect :
    (p : Platform) (step : Step) (s : Identities)
    → IsKeyed s.users
    → IsFresh p step s
    → Effect s (perform p step s)
perform-Effect p (set_up id email name phc provided now) s keyed new =
    set_up-Effect s id email name phc provided now new
perform-Effect p (create actor phc user) s keyed new = create-Effect s actor phc user new
perform-Effect p (update user_id change actor now) s keyed new =
    update-Effect s user_id change actor now
perform-Effect p (issue_reset user_id actor token now) s keyed new =
    Effect.same (issue_reset-SameUsers p s user_id actor token now)
perform-Effect p (check_reset digest now) s keyed new =
    Effect.same (check_reset-SameUsers p s digest now)
perform-Effect p (renew digest phc now) s keyed new = reset-Effect digest now s phc keyed
perform-Effect p (log_in user_id phc digest csrf trace expires) s keyed new =
    Effect.same (login-SameUsers p s user_id phc digest csrf trace expires)
perform-Effect p (authenticate token now) s keyed new =
    Effect.same (authenticate-SameUsers p s token now)
perform-Effect p (recover token fresh csrf now) s keyed new =
    Effect.same (recover-SameUsers p s token fresh csrf now)
perform-Effect p (log_out token trace) s keyed new = Effect.same (logout-SameUsers p s token trace)
perform-Effect p (create_token actor token digest trace) s keyed new =
    Effect.same (create_token-SameUsers p s actor token digest trace)
perform-Effect p (revoke_token id actor trace) s keyed new =
    Effect.same (revoke_token-SameUsers p s id actor trace)
perform-Effect p (use_token plain now) s keyed new = Effect.same (use_token-SameUsers p s plain now)
perform-Effect p (issue_console server user plain now) s keyed new =
    Effect.same (issue_console-SameUsers p s server user plain now)
perform-Effect p (use_console plain now) s keyed new =
    Effect.same (use_console-SameUsers p s plain now)
perform-Effect p (put_member server user given actor now) s keyed new =
    Effect.same (put_member-SameUsers p s server user given actor now)
perform-Effect p (delete_member server user actor) s keyed new =
    Effect.same (delete_member-SameUsers p s server user actor)
perform-Effect p (issue_enrollment hint ttl actor token now) s keyed new =
    Effect.same (issue_enrollment-SameUsers p s hint ttl actor token now)
perform-Effect p (use_enrollment raw now) s keyed new =
    Effect.same (use_enrollment-SameUsers p s raw now)
perform-Effect p (revoke node actor) s keyed new = Effect.same (revoke-SameUsers p s node actor)
