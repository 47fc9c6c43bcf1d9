-- ===== src/Identity/Members.antt =====
-- internal/store/identity.go: who is a member of a server. internal/store/enrollment_tokens.go: the
-- tokens with which an agent enrols, and the revocation of its node, in the memory adapter.
use gu_gu_manager.Base.{
  ℕ, ◌*◌, ◌+◌, String, Bool, true, false, not, Option, none, some, List, [], ltb, ◌==◌,
  if◌then◌else◌, is_some, is_empty, contains, trim_space,
}
use gu_gu_manager.Base.Maps.{Assoc, lookup, insert, remove}
use gu_gu_manager.Base.Calls.{
  Problem, Result, ok, err, pure, lift, gets, modify, require, ◌>>=◌, ◌>>◌, problem, or_problem,
}
use gu_gu_manager.Identity.State.{
  User, ServerMembership, Identities, Exec, Platform, token_digest, record_audit,
}
use gu_gu_manager.Identity.Names.{normalize_permissions, rune_count, invalid, minute}
use gu_gu_manager.Identity.Access.{
  is_active_user, has_role, current_actor, require_platform_admin, membership_of, forbidden,
  not_found,
}

unfoldable pub server_membership : String → String → Identities → Result ServerMembership
unfolding membership_of
server_membership server_id user_id s = or_problem (membership_of server_id user_id s) not_found

-- The map of a server, which is made when it is missing.
abbrev members_of : Option (Assoc ServerMembership) → Assoc ServerMembership
members_of none = []
members_of (some members) = members

abbrev or_new : Option ServerMembership → String → String → ℕ → ServerMembership
or_new (some membership) server_id user_id now = membership
or_new none server_id user_id now = record {
  server_id = server_id;
  user_id = user_id;
  permissions = [];
  created_at = now;
  updated_at = 0;
}

unfoldable pub new_membership : String → String → List String → ℕ → Identities → ServerMembership
unfolding membership_of
new_membership server_id user_id permissions now s =
    record (or_new (membership_of server_id user_id s) server_id user_id now) {
      permissions = permissions;
      updated_at = now;
    }

unfoldable pub membership_put : User → String → String → ServerMembership → Identities → Identities
unfolding lookup insert record_audit
membership_put actor server_id user_id membership s =
    record_audit actor.display_name "server.membership.put" server_id "success" "" (record s {
      memberships =
          insert server_id (insert user_id membership (members_of (lookup server_id s.memberships)))
            s.memberships;
    })

unfoldable pub put_server_membership :
    String → String → List String → User → ℕ → Exec ServerMembership
unfolding ◌>>=◌ normalize_permissions require_platform_admin contains lookup is_active_user
    new_membership membership_put
put_server_membership server_id user_id given actor now = do
  permissions ← lift (normalize_permissions given)
  require_platform_admin actor.id
  require (← gets (λ s. contains server_id s.servers)) not_found
  require (← gets (λ s. is_active_user (lookup user_id s.users))) not_found
  membership ← gets (new_membership server_id user_id permissions now)
  modify (membership_put actor server_id user_id membership)
  pure membership

unfoldable pub membership_deleted : User → String → String → Identities → Identities
unfolding lookup insert remove record_audit
membership_deleted actor server_id user_id s =
    record_audit actor.display_name "server.membership.delete" server_id "success" "" (record s {
      memberships =
          insert server_id (remove user_id (members_of (lookup server_id s.memberships)))
            s.memberships;
    })

unfoldable pub delete_server_membership : String → String → User → Exec (Unit {0})
unfolding ◌>>=◌ require require_platform_admin contains membership_of membership_deleted
delete_server_membership server_id user_id actor = do
  require_platform_admin actor.id
  require (← gets (λ s. contains server_id s.servers)) not_found
  require (← gets (λ s. is_some (membership_of server_id user_id s))) not_found
  modify (membership_deleted actor server_id user_id)

abbrev pub day : ℕ
day = 24 * 60 * minute

-- The time to live is in nanoseconds; a negative one, which the code refuses, is no value here.
unfoldable pub normalize_enrollment_token_input : String → ℕ → Result (String × ℕ)
unfolding trim_space rune_count
normalize_enrollment_token_input hint ttl =
    let name = trim_space hint in
    if ltb 100 (rune_count name)
    then err invalid
    else if ltb (7 * day) ttl
    then err invalid
    else ok (name, if ttl == 0 then day else ttl)

unfoldable pub enrollment_issued : String → ℕ → Identities → Identities
unfolding insert
enrollment_issued digest expires s = record s {
  enrollment_tokens = insert digest expires s.enrollment_tokens;
}

unfoldable pub issue_enrollment_token : Platform → String → ℕ → String → ℕ → Exec ℕ
unfolding ◌>>=◌ normalize_enrollment_token_input token_digest enrollment_issued
issue_enrollment_token p hint ttl token now = do
  accepted ← lift (normalize_enrollment_token_input hint ttl)
  modify (enrollment_issued (token_digest p token) (now + accepted.1))
  pure (now + accepted.1)

abbrev is_admin_actor : Result User → Bool
is_admin_actor (ok u) = has_role u "platform_admin"
is_admin_actor (err p) = false

unfoldable pub issue_agent_enrollment_token : Platform → String → ℕ → String → String → ℕ → Exec ℕ
unfolding ◌>>=◌ require current_actor has_role issue_enrollment_token
issue_agent_enrollment_token p hint ttl actor_id token now = do
  require (← gets (λ s. is_admin_actor (current_actor actor_id s))) forbidden
  issue_enrollment_token p hint ttl token now

abbrev invalid_enrollment : Problem
invalid_enrollment = problem "ENROLLMENT_TOKEN_INVALID" false

abbrev unexpired : Option ℕ → ℕ → Bool
unexpired none now = false
unexpired (some expires) now = ltb now expires

unfoldable pub enrollment_taken : String → Identities → Identities
unfolding remove
enrollment_taken digest s = record s { enrollment_tokens = remove digest s.enrollment_tokens }

unfoldable pub consume_enrollment_token : Platform → String → ℕ → Exec (Unit {0})
unfolding ◌>>=◌ require is_empty token_digest lookup enrollment_taken
consume_enrollment_token p raw now = do
  require (not (is_empty raw)) invalid_enrollment
  let digest = token_digest p raw
  found ← gets (λ s. lookup digest s.enrollment_tokens)
  modify (enrollment_taken digest)
  require (unexpired found now) invalid_enrollment

abbrev was_revoked : Option Bool → Bool
was_revoked none = false
was_revoked (some b) = b

unfoldable pub node_revoked : String → Identities → Identities
unfolding insert
node_revoked node_id s = record s { revoked_nodes = insert node_id true s.revoked_nodes }

unfoldable pub revoke_node : String → String → Exec (Unit {0})
unfolding ◌>>=◌ require current_actor has_role contains lookup node_revoked
revoke_node node_id actor_id = do
  require (← gets (λ s. is_admin_actor (current_actor actor_id s))) forbidden
  require (← gets (λ s. contains node_id s.nodes)) not_found
  require (← gets (λ s. not (was_revoked (lookup node_id s.revoked_nodes)))) not_found
  modify (node_revoked node_id)
