-- ===== src/Identity/Users.antt =====
-- internal/store/identity.go: the first administrator, the users, and what is revoked with them.
use gu_gu_manager.Base.{
  ℕ, ◌+◌, String, Bool, true, false, not, ◌||◌, List, [], ◌∷◌, ◌++◌, leb, str_eq, if◌then◌else◌,
  is_some,
}
use gu_gu_manager.Base.Maps.{Assoc, lookup, insert, drop_values}
use gu_gu_manager.Base.Calls.{
  Result, ok, err, pure, lift, gets, modify, require, ◌>>=◌, ◌>>◌, problem, or_problem,
}
use gu_gu_manager.Identity.State.{
  User, StoredUser, ApiTokenRecord, Identities, Exec, Platform, token_digest, record_audit,
}
use gu_gu_manager.Identity.Names.{
  normalize_email, validate_display_name, validate_password, normalize_roles,
}
use gu_gu_manager.Identity.Access.{is_active_admin, require_platform_admin}

unfoldable pub new_user : String → String → String → List String → ℕ → User
new_user id email display_name roles now = record {
  id = id;
  email = email;
  display_name = display_name;
  roles = roles;
  status = "active";
  created_at = now;
  updated_at = now;
}

-- The three writes with which `SetupAdmin` and `CreateUser` add a user.
unfoldable pub add_user : User → String → Identities → Identities
unfolding insert
add_user user phc s = record s {
  users = insert user.id (record { user = user; password_phc = phc }) s.users;
  user_order = s.user_order ++ user.id ∷ [];
  user_by_email = insert user.email user.id s.user_by_email;
}

abbrev pub no_one : Assoc StoredUser → Bool
no_one [] = true
no_one (x ∷ xs) = false

unfoldable pub validate_setup : String → ℕ → Identities → Result (Unit {0})
validate_setup provided now s =
    if not s.setup_required || not (no_one s.users)
    then err (problem "SETUP_ALREADY_COMPLETE" false)
    else if leb s.bootstrap_expires_at now || not (str_eq provided s.bootstrap_token)
    then err (problem "BOOTSTRAP_TOKEN_INVALID" false)
    else ok tt

pub record SetupAdminInput : Type 0 where
  pub email : String
  pub display_name : String
  pub password : String
  pub bootstrap_token : String

unfoldable pub admin_added : User → String → Identities → Identities
unfolding add_user record_audit
admin_added user phc s =
    record_audit user.display_name "setup.admin.create" user.id "success" ""
      (record (add_user user phc s) {
        setup_required = false;
        bootstrap_token = "";
        bootstrap_expires_at = 0;
      })

-- The section of `SetupAdmin` that holds the lock for writing.
unfoldable pub finish_setup : String → String → String → String → String → ℕ → Exec User
unfolding ◌>>=◌ validate_setup new_user admin_added
finish_setup id email display_name phc provided now = do
  lift (← gets (validate_setup provided now))
  let user = new_user id email display_name ("platform_admin" ∷ []) now
  modify (admin_added user phc)
  pure user

-- The whole call, with the times of its two sections; the hash is made between them.
unfoldable pub setup_admin : Platform → SetupAdminInput → String → String → ℕ → ℕ → Exec User
unfolding ◌>>=◌ normalize_email validate_display_name validate_password token_digest validate_setup
    finish_setup
setup_admin p input id salt first second = do
  email ← lift (normalize_email p input.email)
  display_name ← lift (validate_display_name input.display_name)
  lift (validate_password input.password)
  let provided = token_digest p input.bootstrap_token
  lift (← gets (validate_setup provided first))
  phc ← lift (or_problem (p.hash_password salt input.password) (problem "INTERNAL_ERROR" true))
  finish_setup id email display_name phc provided second

pub record CreateUserInput : Type 0 where
  pub email : String
  pub display_name : String
  pub password : String
  pub roles : List String

unfoldable pub user_created : User → User → String → Identities → Identities
unfolding add_user record_audit
user_created actor user phc s =
    record_audit actor.display_name "user.create" user.id "success" "" (add_user user phc s)

-- The section that holds the lock.
unfoldable pub finish_create_user : User → String → User → Exec User
unfolding ◌>>=◌ require require_platform_admin lookup user_created
finish_create_user actor phc user = do
  require_platform_admin actor.id
  taken ← gets (λ s. is_some (lookup user.email s.user_by_email))
  require (not taken) (problem "EMAIL_CONFLICT" false)
  modify (user_created actor user phc)
  pure user

unfoldable pub create_user : Platform → CreateUserInput → User → String → String → ℕ → Exec User
unfolding ◌>>=◌ normalize_email validate_display_name validate_password normalize_roles
    finish_create_user new_user
create_user p input actor id salt now = do
  email ← lift (normalize_email p input.email)
  display_name ← lift (validate_display_name input.display_name)
  lift (validate_password input.password)
  roles ← lift (normalize_roles input.roles)
  phc ← lift (or_problem (p.hash_password salt input.password) (problem "INTERNAL_ERROR" true))
  finish_create_user actor phc (new_user id email display_name roles now)

unfoldable pub revoke_digests : String → Assoc ApiTokenRecord → Assoc String → Assoc String
unfolding drop_values
revoke_digests user_id [] digests = digests
revoke_digests user_id ((id, r) ∷ rest) digests =
    revoke_digests user_id rest
      (if str_eq r.user_id user_id then drop_values (λ held. str_eq held id) digests else digests)

unfoldable pub revoke_user_sessions : String → Identities → Identities
unfolding drop_values revoke_digests
revoke_user_sessions user_id s = record s {
  sessions = drop_values (λ x. str_eq x.user_id user_id) s.sessions;
  api_tokens = drop_values (λ x. str_eq x.user_id user_id) s.api_tokens;
  api_token_by_digest = revoke_digests user_id s.api_tokens s.api_token_by_digest;
  console_tokens = drop_values (λ x. str_eq x.user_id user_id) s.console_tokens;
}

unfoldable pub revoke_password_reset_tokens : String → Identities → Identities
unfolding drop_values
revoke_password_reset_tokens user_id s = record s {
  password_reset_tokens = drop_values (λ x. str_eq x.user_id user_id) s.password_reset_tokens;
}

unfoldable pub active_admin_count : Assoc StoredUser → ℕ
unfolding is_active_admin
active_admin_count [] = 0
active_admin_count ((id, u) ∷ rest) = active_admin_count rest + (if is_active_admin u then 1 else 0)
