-- ===== src/Identity/Effects.antt =====
-- What each step does to the users and to the index of their addresses.
use gu_gu_manager.Base.{ℕ, ◌≡◌, String, List, arith}
use gu_gu_manager.Base.Calls.{◌>>=◌, require}
use gu_gu_manager.Identity.State.{User, ApiToken, Identities, Platform, record_audit}
use gu_gu_manager.Identity.Access.{require_platform_admin}
use gu_gu_manager.Identity.Resets.{
  issue_password_reset_token, issue_to, issue_audit, reset_issued, validate_reset_token,
}
use gu_gu_manager.Identity.Sessions.{
  finish_login, refuse_login, logged_in, authenticate_session, recover_session, session_moved,
  drop_session, logout,
}
use gu_gu_manager.Identity.Tokens.{
  finish_create_api_token, api_token_created, revoke_api_token, api_token_revoked,
  authenticate_api_token, token_used, issue_console_connection_token, console_issued,
  consume_console_connection_token, console_taken,
}
use gu_gu_manager.Identity.Members.{
  put_server_membership, membership_put, delete_server_membership, membership_deleted,
  issue_agent_enrollment_token, issue_enrollment_token, enrollment_issued, consume_enrollment_token,
  enrollment_taken, revoke_node, node_revoked,
}

-- The users, and the index of their addresses, stay.
abbrev pub SameUsers : Identities → Identities → Type 0
SameUsers s s' = (s'.users ≡ s.users) × (s'.user_by_email ≡ s.user_by_email)

module _ (p : Platform) (s : Identities) where
  pub issue_reset-SameUsers :
      (user_id : String) (actor : User) (token : String) (now : ℕ)
      → SameUsers s (issue_password_reset_token p user_id actor token now s).1
  unfolding issue_password_reset_token ◌>>=◌ require_platform_admin require issue_to issue_audit
      reset_issued record_audit
  issue_reset-SameUsers user_id actor token now = ground arith

  pub check_reset-SameUsers :
      (digest : String) (now : ℕ) → SameUsers s (validate_reset_token digest now s).1
  unfolding validate_reset_token
  check_reset-SameUsers digest now = ground arith

  pub login-SameUsers :
      (user_id phc digest csrf trace : String) (expires : ℕ)
      → SameUsers s (finish_login user_id phc digest csrf trace expires s).1
  unfolding finish_login refuse_login logged_in record_audit ◌>>=◌
  login-SameUsers user_id phc digest csrf trace expires = ground arith

  pub authenticate-SameUsers :
      (token : String) (now : ℕ) → SameUsers s (authenticate_session p token now s).1
  unfolding authenticate_session drop_session
  authenticate-SameUsers token now = ground arith

  pub recover-SameUsers :
      (token new csrf : String) (now : ℕ) → SameUsers s (recover_session p token new csrf now s).1
  unfolding recover_session drop_session session_moved
  recover-SameUsers token new csrf now = ground arith

  pub logout-SameUsers : (token trace : String) → SameUsers s (logout p token trace s)
  unfolding logout drop_session record_audit
  logout-SameUsers token trace = ground arith

  pub create_token-SameUsers :
      (actor : String) (token : ApiToken) (digest trace : String)
      → SameUsers s (finish_create_api_token actor token digest trace s).1
  unfolding finish_create_api_token ◌>>=◌ api_token_created record_audit
  create_token-SameUsers actor token digest trace = ground arith

  pub revoke_token-SameUsers :
      (id actor trace : String) → SameUsers s (revoke_api_token id actor trace s).1
  unfolding revoke_api_token ◌>>=◌ api_token_revoked record_audit
  revoke_token-SameUsers id actor trace = ground arith

  pub use_token-SameUsers :
      (plain : String) (now : ℕ) → SameUsers s (authenticate_api_token p plain now s).1
  unfolding authenticate_api_token ◌>>=◌ token_used
  use_token-SameUsers plain now = ground arith

  pub issue_console-SameUsers :
      (server user plain : String) (now : ℕ)
      → SameUsers s (issue_console_connection_token p server user plain now s).1
  unfolding issue_console_connection_token ◌>>=◌ console_issued
  issue_console-SameUsers server user plain now = ground arith

  pub use_console-SameUsers :
      (plain : String) (now : ℕ) → SameUsers s (consume_console_connection_token p plain now s).1
  unfolding consume_console_connection_token ◌>>=◌ console_taken
  use_console-SameUsers plain now = ground arith

  pub put_member-SameUsers :
      (server user : String) (given : List String) (actor : User) (now : ℕ)
      → SameUsers s (put_server_membership server user given actor now s).1
  unfolding put_server_membership ◌>>=◌ require require_platform_admin membership_put record_audit
  put_member-SameUsers server user given actor now = ground arith

  pub delete_member-SameUsers :
      (server user : String) (actor : User)
      → SameUsers s (delete_server_membership server user actor s).1
  unfolding delete_server_membership ◌>>=◌ require require_platform_admin membership_deleted
      record_audit
  delete_member-SameUsers server user actor = ground arith

  pub issue_enrollment-SameUsers :
      (hint : String) (ttl : ℕ) (actor token : String) (now : ℕ)
      → SameUsers s (issue_agent_enrollment_token p hint ttl actor token now s).1
  unfolding issue_agent_enrollment_token issue_enrollment_token ◌>>=◌ require enrollment_issued
  issue_enrollment-SameUsers hint ttl actor token now = ground arith

  pub use_enrollment-SameUsers :
      (raw : String) (now : ℕ) → SameUsers s (consume_enrollment_token p raw now s).1
  unfolding consume_enrollment_token ◌>>=◌ require enrollment_taken
  use_enrollment-SameUsers raw now = ground arith

  pub revoke-SameUsers : (node actor : String) → SameUsers s (revoke_node node actor s).1
  unfolding revoke_node ◌>>=◌ require node_revoked
  revoke-SameUsers node actor = ground arith
