-- ===== src/Identity/Runs.antt =====
-- The identity calls as steps on their state: each section that holds the lock is one step, so a
-- run
-- is any interleaving of calls. Sections that only read are no steps; what they found comes as
-- arguments, which may be any.
use gu_gu_manager.Base.{ℕ, ◌≡◌, String, none, List, [], ◌∷◌}
use gu_gu_manager.Base.Maps.{lookup}
use gu_gu_manager.Identity.State.{User, ApiToken, Identities, Platform}
use gu_gu_manager.Identity.Users.{finish_setup, finish_create_user}
use gu_gu_manager.Identity.Updates.{UpdateUserInput, finish_update_user}
use gu_gu_manager.Identity.Resets.{
  issue_password_reset_token, validate_reset_token, finish_reset_password,
}
use gu_gu_manager.Identity.Sessions.{finish_login, authenticate_session, recover_session, logout}
use gu_gu_manager.Identity.Tokens.{
  finish_create_api_token, revoke_api_token, authenticate_api_token, issue_console_connection_token,
  consume_console_connection_token,
}
use gu_gu_manager.Identity.Members.{
  put_server_membership, delete_server_membership, issue_agent_enrollment_token,
  consume_enrollment_token, revoke_node,
}

pub data Step : Type 0 where
  set_up : (id email display_name phc provided : String) (now : ℕ) → Step
  create : (actor : User) (phc : String) (user : User) → Step
  update : (user_id : String) (change : UpdateUserInput) (actor : User) (now : ℕ) → Step
  issue_reset : (user_id : String) (actor : User) (token : String) (now : ℕ) → Step
  check_reset : (digest : String) (now : ℕ) → Step
  renew : (digest phc : String) (now : ℕ) → Step
  log_in : (user_id phc digest csrf trace : String) (expires : ℕ) → Step
  authenticate : (token : String) (now : ℕ) → Step
  recover : (token new_token csrf : String) (now : ℕ) → Step
  log_out : (token trace : String) → Step
  create_token : (actor_id : String) (token : ApiToken) (digest trace : String) → Step
  revoke_token : (id actor_id trace : String) → Step
  use_token : (plain : String) (now : ℕ) → Step
  issue_console : (server_id user_id plain : String) (now : ℕ) → Step
  use_console : (plain : String) (now : ℕ) → Step
  put_member : (server_id user_id : String) (given : List String) (actor : User) (now : ℕ) → Step
  delete_member : (server_id user_id : String) (actor : User) → Step
  issue_enrollment : (hint : String) (ttl : ℕ) (actor_id token : String) (now : ℕ) → Step
  use_enrollment : (raw : String) (now : ℕ) → Step
  revoke : (node_id actor_id : String) → Step

module _ (p : Platform) where
  abbrev pub perform : Step → Identities → Identities
  perform (set_up id email display_name phc provided now) s =
      (finish_setup id email display_name phc provided now s).1
  perform (create actor phc user) s = (finish_create_user actor phc user s).1
  perform (update user_id change actor now) s = (finish_update_user user_id change actor now s).1
  perform (issue_reset user_id actor token now) s =
      (issue_password_reset_token p user_id actor token now s).1
  perform (check_reset digest now) s = (validate_reset_token digest now s).1
  perform (renew digest phc now) s = (finish_reset_password digest phc now s).1
  perform (log_in user_id phc digest csrf trace expires) s =
      (finish_login user_id phc digest csrf trace expires s).1
  perform (authenticate token now) s = (authenticate_session p token now s).1
  perform (recover token new_token csrf now) s = (recover_session p token new_token csrf now s).1
  perform (log_out token trace) s = logout p token trace s
  perform (create_token actor_id token digest trace) s =
      (finish_create_api_token actor_id token digest trace s).1
  perform (revoke_token id actor_id trace) s = (revoke_api_token id actor_id trace s).1
  perform (use_token plain now) s = (authenticate_api_token p plain now s).1
  perform (issue_console server_id user_id plain now) s =
      (issue_console_connection_token p server_id user_id plain now s).1
  perform (use_console plain now) s = (consume_console_connection_token p plain now s).1
  perform (put_member server_id user_id given actor now) s =
      (put_server_membership server_id user_id given actor now s).1
  perform (delete_member server_id user_id actor) s =
      (delete_server_membership server_id user_id actor s).1
  perform (issue_enrollment hint ttl actor_id token now) s =
      (issue_agent_enrollment_token p hint ttl actor_id token now s).1
  perform (use_enrollment raw now) s = (consume_enrollment_token p raw now s).1
  perform (revoke node_id actor_id) s = (revoke_node node_id actor_id s).1

  abbrev pub run : List Step → Identities → Identities
  run [] s = s
  run (step ∷ steps) s = run steps (perform step s)

  -- `id.New` gives ids that no user has: what the steps of a run that add a user need.
  abbrev pub IsFresh : Step → Identities → Type 0
  IsFresh (set_up id email display_name phc provided now) s = lookup id s.users ≡ none
  IsFresh (create actor phc user) s = lookup user.id s.users ≡ none
  IsFresh step s = Unit

  abbrev pub AreFresh : List Step → Identities → Type 0
  AreFresh [] s = Unit
  AreFresh (step ∷ steps) s = IsFresh step s × AreFresh steps (perform step s)
