-- ===== src/Identity/Updates.antt =====
-- internal/store/identity.go: `UpdateUser`.
use gu_gu_manager.Base.{
  ℕ, String, Bool, true, false, not, ◌&&◌, ◌||◌, Option, none, some, List, leb, str_eq,
  if◌then◌else◌, is_some, contains,
}
use gu_gu_manager.Base.Maps.{lookup, insert}
use gu_gu_manager.Base.Calls.{
  Result, ok, err, pure, lift, gets, modify, require, ◌>>=◌, ◌>>◌, problem, or_problem,
}
use gu_gu_manager.Identity.State.{User, StoredUser, Identities, Exec, record_audit}
use gu_gu_manager.Identity.Names.{validate_display_name, normalize_roles, invalid}
use gu_gu_manager.Identity.Access.{is_active, has_role, require_platform_admin, not_found}
use gu_gu_manager.Identity.Users.{
  revoke_user_sessions, revoke_password_reset_tokens, active_admin_count,
}

pub record UpdateUserInput : Type 0 where
  pub display_name : Option String
  pub status : Option String
  pub roles : Option (List String)

-- `if input.F != nil { … }` around a check that returns the field's new value.
abbrev pub optional : {A B : Type 0} → (A → Result B) → Option A → Result (Option B)
optional f none = ok none
optional f (some a) = elim (f a) [ ok b ↦ ok (some b) | err p ↦ err p ]

abbrev pub or_old {ℓ} : {A : Type ℓ} → Option A → A → A
or_old none old = old
or_old (some new) old = new

unfoldable pub is_user_status : Option String → Bool
is_user_status none = true
is_user_status (some status) = str_eq status "active" || str_eq status "disabled"

-- The user with the new fields.
unfoldable pub updated_user : UpdateUserInput → ℕ → StoredUser → StoredUser
updated_user change now u = record u {
  user = record u.user {
    display_name = or_old change.display_name u.user.display_name;
    status = or_old change.status u.user.status;
    roles = or_old change.roles u.user.roles;
    updated_at = now;
  };
}

unfoldable pub removes_active_admin : UpdateUserInput → StoredUser → Bool
unfolding has_role is_active contains
removes_active_admin change u =
    (has_role u.user "platform_admin" && is_active u)
    && (not (str_eq (or_old change.status u.user.status) "active")
        || not (contains "platform_admin" (or_old change.roles u.user.roles)))

-- `if record.User.Status != "active" { … }`
unfoldable pub revoke_inactive : String → StoredUser → Identities → Identities
unfolding is_active revoke_user_sessions revoke_password_reset_tokens
revoke_inactive user_id u s =
    if is_active u then s else revoke_password_reset_tokens user_id (revoke_user_sessions user_id s)

unfoldable pub user_updated : User → String → StoredUser → Identities → Identities
unfolding revoke_inactive record_audit insert
user_updated actor user_id u s =
    record_audit actor.display_name "user.update" user_id "success" ""
      (revoke_inactive user_id u (record s { users = insert user_id u s.users }))

-- The section that holds the lock; `change` has the normalized fields.
unfoldable pub finish_update_user : String → UpdateUserInput → User → ℕ → Exec User
unfolding ◌>>=◌ require require_platform_admin lookup removes_active_admin active_admin_count
    updated_user user_updated
finish_update_user user_id change actor now = do
  require_platform_admin actor.id
  u ← lift (or_problem (← gets (λ s. lookup user_id s.users)) not_found)
  admins ← gets (λ s. active_admin_count s.users)
  require (not (removes_active_admin change u && leb admins 1)) (problem "OPERATION_CONFLICT" false)
  modify (user_updated actor user_id (updated_user change now u))
  pure (updated_user change now u).user

unfoldable pub update_user : String → UpdateUserInput → User → ℕ → Exec User
unfolding ◌>>=◌ require validate_display_name normalize_roles is_user_status finish_update_user
update_user user_id input actor now = do
  require (is_some input.display_name || is_some input.status || is_some input.roles) invalid
  display_name ← lift (optional validate_display_name input.display_name)
  roles ← lift (optional normalize_roles input.roles)
  require (is_user_status input.status) invalid
  let change : UpdateUserInput = record {
    display_name = display_name;
    status = input.status;
    roles = roles;
  }
  finish_update_user user_id change actor now
