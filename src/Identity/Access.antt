-- ===== src/Identity/Access.antt =====
-- internal/store/identity.go: who may do what, as the calls of this component ask it.
use gu_gu_manager.Base.{
  String, Bool, false, not, ◌&&◌, Option, none, some, List, str_eq, if◌then◌else◌, contains,
}
use gu_gu_manager.Base.Maps.{lookup}
use gu_gu_manager.Base.Calls.{Problem, Result, ok, err, require, problem}
use gu_gu_manager.Identity.State.{User, StoredUser, ServerMembership, Identities, Exec}
use gu_gu_manager.Identity.Names.{sort_texts, all_server_permissions}

abbrev pub forbidden : Problem
forbidden = problem "FORBIDDEN" false

abbrev pub not_found : Problem
not_found = problem "NOT_FOUND" false

abbrev pub auth_required : Problem
auth_required = problem "AUTH_REQUIRED" false

unfoldable pub has_role : User → String → Bool
unfolding contains
has_role user role = contains role user.roles

unfoldable pub is_active : StoredUser → Bool
is_active u = str_eq u.user.status "active"

unfoldable pub is_active_user : Option StoredUser → Bool
unfolding is_active
is_active_user none = false
is_active_user (some u) = is_active u

unfoldable pub is_active_admin : StoredUser → Bool
unfolding is_active has_role
is_active_admin u = is_active u && has_role u.user "platform_admin"

unfoldable pub is_admin_entry : Option StoredUser → Bool
unfolding is_active_admin
is_admin_entry none = false
is_admin_entry (some u) = is_active_admin u

unfoldable pub require_platform_admin : String → Exec (Unit {0})
unfolding lookup is_admin_entry require
require_platform_admin id s = require (is_admin_entry (lookup id s.users)) forbidden s

unfoldable pub current_actor : String → Identities → Result User
unfolding lookup is_active
current_actor id s = elim (lookup id s.users) [
  | none ↦ err forbidden
  | some u ↦ if is_active u then ok u.user else err forbidden
]

-- `m.memberships[serverID][userID]`.
unfoldable pub membership_of : String → String → Identities → Option ServerMembership
unfolding lookup
membership_of server_id user_id s = elim (lookup server_id s.memberships) [
  | none ↦ none
  | some members ↦ lookup user_id members
]

-- What `authorizeServerLocked` asks of the membership of an actor who is no administrator.
unfoldable pub allow_member : String → Option ServerMembership → User → Result User
unfolding contains
allow_member permission none actor = err not_found
allow_member permission (some membership) actor =
    if contains permission membership.permissions then ok actor else err forbidden

unfoldable pub allow_actor : String → String → String → User → Identities → Result User
unfolding contains has_role membership_of allow_member
allow_actor actor_id server_id permission actor s =
    if not (contains server_id s.servers)
    then err not_found
    else if has_role actor "platform_admin"
    then ok actor
    else allow_member permission (membership_of server_id actor_id s) actor

unfoldable pub authorize_server : String → String → String → Identities → Result User
unfolding current_actor allow_actor
authorize_server actor_id server_id permission s = elim (current_actor actor_id s) [
  | err p ↦ err p
  | ok actor ↦ allow_actor actor_id server_id permission actor s
]

-- `EffectiveServerPermissions`, without the id of the server in its answer.
abbrev member_permissions : Option ServerMembership → Result (List String)
member_permissions none = err not_found
member_permissions (some membership) =
    if contains "servers.read" membership.permissions
    then ok (sort_texts membership.permissions)
    else err not_found

unfoldable pub permissions_of : String → String → StoredUser → Identities → Result (List String)
unfolding is_active contains has_role all_server_permissions membership_of sort_texts
permissions_of user_id server_id u s =
    if not (is_active u)
    then err auth_required
    else if not (contains server_id s.servers)
    then err not_found
    else if has_role u.user "platform_admin"
    then ok all_server_permissions
    else member_permissions (membership_of server_id user_id s)

unfoldable pub effective_server_permissions : String → String → Identities → Result (List String)
unfolding lookup permissions_of
effective_server_permissions user_id server_id s = elim (lookup user_id s.users) [
  | none ↦ err auth_required
  | some u ↦ permissions_of user_id server_id u s
]
