-- ===== src/Identity/Resets.antt =====
-- internal/store/identity.go: the tokens with which a password is set anew.
use gu_gu_manager.Base.{
  ℕ, ◌+◌, ◌*◌, String, true, false, not, ◌||◌, Option, none, some, leb, str_eq, if◌then◌else◌,
}
use gu_gu_manager.Base.Maps.{lookup, insert, remove, drop_values}
use gu_gu_manager.Base.Calls.{
  Problem, ok, err, pure, raise, lift, gets, modify, ◌>>=◌, ◌>>◌, problem, or_problem,
}
use gu_gu_manager.Identity.State.{
  User, StoredUser, PasswordResetRecord, Identities, Exec, Platform, token_digest, record_audit,
}
use gu_gu_manager.Identity.Names.{validate_password, minute}
use gu_gu_manager.Identity.Access.{is_active, require_platform_admin, not_found}
use gu_gu_manager.Identity.Users.{revoke_user_sessions}

abbrev pub password_reset_ttl : ℕ
password_reset_ttl = 15 * minute

abbrev invalid_reset : Problem
invalid_reset = problem "AUTH_INVALID_RESET_TOKEN" false

unfoldable pub issue_audit : User → String → String → Identities → Identities
unfolding record_audit
issue_audit actor user_id result =
    record_audit actor.display_name "auth.password_reset.issue" user_id result ""

unfoldable pub reset_issued : User → String → String → ℕ → Identities → Identities
unfolding insert issue_audit
reset_issued actor user_id digest expires s = issue_audit actor user_id "success" (record s {
  password_reset_tokens =
      insert digest (record { user_id = user_id; expires_at = expires }) s.password_reset_tokens;
})

abbrev refuse_issue : User → String → Problem → Exec ℕ
refuse_issue actor user_id p = modify (issue_audit actor user_id "failure") >> raise p

unfoldable pub issue_to : Option StoredUser → User → String → String → ℕ → Exec ℕ
unfolding ◌>>=◌ issue_audit is_active reset_issued
issue_to none actor user_id digest now = refuse_issue actor user_id not_found
issue_to (some u) actor user_id digest now =
    if is_active u
    then modify (reset_issued actor user_id digest (now + password_reset_ttl))
      >> pure (now + password_reset_ttl)
    else refuse_issue actor user_id (problem "OPERATION_CONFLICT" false)

-- `token` is the random token that is drawn; the result is the time at which it expires.
unfoldable pub issue_password_reset_token : Platform → String → User → String → ℕ → Exec ℕ
unfolding ◌>>=◌ require_platform_admin lookup token_digest issue_to
issue_password_reset_token p user_id actor token now = do
  require_platform_admin actor.id
  u ← gets (λ s. lookup user_id s.users)
  issue_to u actor user_id (token_digest p token) now

-- The reset and its user, when the token may be used.
unfoldable pub usable_reset : String → ℕ → Identities → Option (PasswordResetRecord × StoredUser)
unfolding lookup is_active
usable_reset digest now s = elim (lookup digest s.password_reset_tokens) [
  | none ↦ none
  | some reset ↦ elim (lookup reset.user_id s.users) [
    | none ↦ none
    | some u ↦ if not (is_active u) || leb reset.expires_at now then none else some (reset, u)
  ]
]

-- `validateResetTokenLocked`, with the lines that remove a token that it refuses.
unfoldable pub validate_reset_token : String → ℕ → Exec StoredUser
unfolding usable_reset remove
validate_reset_token digest now s = elim (usable_reset digest now s) [
  | some (reset, u) ↦ (ok u, s)
  | none ↦ (
    err invalid_reset,
    record s { password_reset_tokens = remove digest s.password_reset_tokens },
  )
]

unfoldable pub password_reset : StoredUser → String → ℕ → Identities → Identities
unfolding insert drop_values revoke_user_sessions record_audit
password_reset u phc now s =
    let id = u.user.id in
    let renewed : StoredUser = record u {
      user = record u.user { updated_at = now };
      password_phc = phc;
    } in
    record_audit u.user.display_name "auth.password_reset.consume" id "success" "" (
      revoke_user_sessions id (record s {
        users = insert id renewed s.users;
        password_reset_tokens = drop_values (λ x. str_eq x.user_id id) s.password_reset_tokens;
      }))

-- The section of `ResetPassword` that holds the lock for writing.
unfoldable pub finish_reset_password : String → String → ℕ → Exec (Unit {0})
unfolding ◌>>=◌ validate_reset_token password_reset
finish_reset_password digest phc now = do
  u ← validate_reset_token digest now
  modify (password_reset u phc now)

-- The whole call, with the times of its two sections; the hash is made between them.
unfoldable pub reset_password : Platform → String → String → String → ℕ → ℕ → Exec (Unit {0})
unfolding ◌>>=◌ validate_password token_digest validate_reset_token finish_reset_password
reset_password p token password salt first second = do
  lift (validate_password password)
  _ ← validate_reset_token (token_digest p token) first
  phc ← lift (or_problem (p.hash_password salt password) (problem "INTERNAL_ERROR" true))
  finish_reset_password (token_digest p token) phc second
