-- ===== src/Identity/Credentials.antt =====
-- The credentials through any run of the identity calls.
use gu_gu_manager.Base.{ℕ, ◌≡◌, String, List, [], ◌∷◌, arith}
use gu_gu_manager.Base.Calls.{◌>>=◌, require}
use gu_gu_manager.Identity.State.{User, Identities, Platform, record_audit}
use gu_gu_manager.Identity.Access.{require_platform_admin}
use gu_gu_manager.Identity.Members.{
  put_server_membership, membership_put, delete_server_membership, membership_deleted,
  issue_agent_enrollment_token, issue_enrollment_token, enrollment_issued, consume_enrollment_token,
  enrollment_taken, revoke_node, node_revoked,
}
use gu_gu_manager.Identity.Runs.{
  Step, set_up, create, update, issue_reset, check_reset, renew, log_in, authenticate, recover,
  log_out, create_token, revoke_token, use_token, issue_console, use_console, put_member,
  delete_member, issue_enrollment, use_enrollment, revoke, perform, run, IsFresh, AreFresh,
}
use gu_gu_manager.Identity.Effects.{
  SameUsers, issue_reset-SameUsers, check_reset-SameUsers, login-SameUsers, authenticate-SameUsers,
  recover-SameUsers, logout-SameUsers, create_token-SameUsers, revoke_token-SameUsers,
  use_token-SameUsers, issue_console-SameUsers, use_console-SameUsers, put_member-SameUsers,
  delete_member-SameUsers, issue_enrollment-SameUsers, use_enrollment-SameUsers, revoke-SameUsers,
}
use gu_gu_manager.Identity.Changes.{IsKeyed}
use gu_gu_manager.Identity.Emails.{AreConsistent, step-AreConsistent}
use gu_gu_manager.Identity.Held.{AreHeld}
use gu_gu_manager.Identity.KeptSessions.{
  logout-AreHeld, authenticate-AreHeld, recover-AreHeld, login-AreHeld,
}
use gu_gu_manager.Identity.KeptTokens.{
  create_token-AreHeld, revoke_token-AreHeld, use_token-AreHeld, issue_console-AreHeld,
  use_console-AreHeld, issue_reset-AreHeld, check_reset-AreHeld,
}
use gu_gu_manager.Identity.Revoked.{create-AreHeld, set_up-AreHeld, update-AreHeld, reset-AreHeld}

abbrev pub AreSound : Identities → Type 0
AreSound s = AreHeld s.users s

SameTokens : Identities → Identities → Type 0
SameTokens s s' =
    (s'.sessions ≡ s.sessions)
    × (s'.password_reset_tokens ≡ s.password_reset_tokens)
    × (s'.api_tokens ≡ s.api_tokens)
    × (s'.console_tokens ≡ s.console_tokens)

module _ (s s' : Identities) (h : AreSound s) where
  -- Users that stay make sound what is held of them.
  settled : SameUsers s s' → AreHeld s.users s' → AreSound s'
  settled (users, _) kept = rw users kept

  untouched : SameUsers s s' → SameTokens s s' → AreSound s'
  unfolding SameTokens
  untouched (users, _) (sessions, resets, tokens, consoles) =
      rw (users, sessions, resets, tokens, consoles) h

module _ (p : Platform) (s : Identities) where
  put_member-SameTokens :
      (server user : String) (given : List String) (actor : User) (now : ℕ)
      → SameTokens s (put_server_membership server user given actor now s).1
  unfolding SameTokens put_server_membership ◌>>=◌ require require_platform_admin membership_put
      record_audit
  put_member-SameTokens server user given actor now = ground arith

  delete_member-SameTokens :
      (server user : String) (actor : User)
      → SameTokens s (delete_server_membership server user actor s).1
  unfolding SameTokens delete_server_membership ◌>>=◌ require require_platform_admin
      membership_deleted record_audit
  delete_member-SameTokens server user actor = ground arith

  issue_enrollment-SameTokens :
      (hint : String) (ttl : ℕ) (actor token : String) (now : ℕ)
      → SameTokens s (issue_agent_enrollment_token p hint ttl actor token now s).1
  unfolding SameTokens issue_agent_enrollment_token issue_enrollment_token ◌>>=◌ require
      enrollment_issued
  issue_enrollment-SameTokens hint ttl actor token now = ground arith

  use_enrollment-SameTokens :
      (raw : String) (now : ℕ) → SameTokens s (consume_enrollment_token p raw now s).1
  unfolding SameTokens consume_enrollment_token ◌>>=◌ require enrollment_taken
  use_enrollment-SameTokens raw now = ground arith

  revoke-SameTokens : (node actor : String) → SameTokens s (revoke_node node actor s).1
  unfolding SameTokens revoke_node ◌>>=◌ require node_revoked
  revoke-SameTokens node actor = ground arith

perform-AreSound :
    (p : Platform) (step : Step) (s : Identities)
    → IsKeyed s.users
    → IsFresh p step s
    → AreSound s
    → AreSound (perform p step s)
perform-AreSound p (set_up id email display_name phc provided now) s keyed new h =
    set_up-AreHeld s h id email display_name phc provided now new
perform-AreSound p (create actor phc user) s keyed new h = create-AreHeld s h actor phc user new
perform-AreSound p (update user_id change actor now) s keyed new h =
    update-AreHeld s h user_id change actor now
perform-AreSound p (issue_reset user_id actor token now) s keyed new h =
    settled s (perform p (issue_reset user_id actor token now) s) h
      (issue_reset-SameUsers p s user_id actor token now)
      (issue_reset-AreHeld p s h user_id actor token now)
perform-AreSound p (check_reset digest now) s keyed new h =
    settled s (perform p (check_reset digest now) s) h (check_reset-SameUsers p s digest now)
      (check_reset-AreHeld p s h digest now)
perform-AreSound p (renew digest phc now) s keyed new h = reset-AreHeld s h digest phc now keyed
perform-AreSound p (log_in user_id phc digest csrf trace expires) s keyed new h =
    settled s (perform p (log_in user_id phc digest csrf trace expires) s) h
      (login-SameUsers p s user_id phc digest csrf trace expires)
      (login-AreHeld p s h user_id phc digest csrf trace expires)
perform-AreSound p (authenticate token now) s keyed new h =
    settled s (perform p (authenticate token now) s) h (authenticate-SameUsers p s token now)
      (authenticate-AreHeld p s h token now)
perform-AreSound p (recover token fresh csrf now) s keyed new h =
    settled s (perform p (recover token fresh csrf now) s) h
      (recover-SameUsers p s token fresh csrf now) (recover-AreHeld p s h token fresh csrf now)
perform-AreSound p (log_out token trace) s keyed new h =
    settled s (perform p (log_out token trace) s) h (logout-SameUsers p s token trace)
      (logout-AreHeld p s h token trace)
perform-AreSound p (create_token actor token digest trace) s keyed new h =
    settled s (perform p (create_token actor token digest trace) s) h
      (create_token-SameUsers p s actor token digest trace)
      (create_token-AreHeld p s h keyed actor token digest trace)
perform-AreSound p (revoke_token id actor trace) s keyed new h =
    settled s (perform p (revoke_token id actor trace) s) h
      (revoke_token-SameUsers p s id actor trace) (revoke_token-AreHeld p s h id actor trace)
perform-AreSound p (use_token plain now) s keyed new h =
    settled s (perform p (use_token plain now) s) h (use_token-SameUsers p s plain now)
      (use_token-AreHeld p s h plain now)
perform-AreSound p (issue_console server user plain now) s keyed new h =
    settled s (perform p (issue_console server user plain now) s) h
      (issue_console-SameUsers p s server user plain now)
      (issue_console-AreHeld p s h server user plain now)
perform-AreSound p (use_console plain now) s keyed new h =
    settled s (perform p (use_console plain now) s) h (use_console-SameUsers p s plain now)
      (use_console-AreHeld p s h plain now)
perform-AreSound p (put_member server user given actor now) s keyed new h =
    untouched s (perform p (put_member server user given actor now) s) h
      (put_member-SameUsers p s server user given actor now)
      (put_member-SameTokens p s server user given actor now)
perform-AreSound p (delete_member server user actor) s keyed new h =
    untouched s (perform p (delete_member server user actor) s) h
      (delete_member-SameUsers p s server user actor)
      (delete_member-SameTokens p s server user actor)
perform-AreSound p (issue_enrollment hint ttl actor token now) s keyed new h =
    untouched s (perform p (issue_enrollment hint ttl actor token now) s) h
      (issue_enrollment-SameUsers p s hint ttl actor token now)
      (issue_enrollment-SameTokens p s hint ttl actor token now)
perform-AreSound p (use_enrollment raw now) s keyed new h =
    untouched s (perform p (use_enrollment raw now) s) h (use_enrollment-SameUsers p s raw now)
      (use_enrollment-SameTokens p s raw now)
perform-AreSound p (revoke node actor) s keyed new h =
    untouched s (perform p (revoke node actor) s) h (revoke-SameUsers p s node actor)
      (revoke-SameTokens p s node actor)

-- Through any run of the calls whose new ids are fresh, from consistent users and credentials of
-- active users, each session, password reset token, API token and console token that is stored is
-- that of an active user: who is disabled keeps none, and finds none on being active again.
pub run-AreSound :
    (p : Platform) (steps : List Step) (s : Identities)
    → AreFresh p steps s
    → AreConsistent s
    → AreSound s
    → AreSound (run p steps s)
run-AreSound p [] s fresh c h = h
run-AreSound p (step ∷ steps) s fresh c h =
    run-AreSound p steps (perform p step s) fresh.1 (step-AreConsistent p step s fresh.0 c)
      (perform-AreSound p step s c.keyed fresh.0 h)
