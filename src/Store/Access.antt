-- ===== src/Store/Access.antt =====
-- internal/store/identity.go: who may do what.
use gu_gu_manager.Base.{String, Bool, false, Option, none, some, str_eq, contains, if◌then◌else◌}
use gu_gu_manager.Base.Maps.{lookup}
use gu_gu_manager.Store.Types.{User, ServerMembership, Memory}
use gu_gu_manager.Store.Exec.{Result, ok, err, problem}

unfoldable pub has_role : User → String → Bool
unfolding contains
has_role user role = contains role user.roles

-- `record.User` with a copy of its roles.
unfoldable pub current_actor : Memory → String → Result User
unfolding lookup
current_actor m user_id = elim (lookup user_id m.users) [
  | none ↦ err (problem "FORBIDDEN" false)
  | some user ↦ if str_eq user.status "active" then ok user else err (problem "FORBIDDEN" false)
]

-- `m.memberships[serverID][actorID]`: a missing inner map has no entries.
unfoldable pub membership_of : Memory → String → String → Option ServerMembership
unfolding lookup
membership_of m server_id user_id = elim (lookup server_id m.memberships) [
  | none ↦ none
  | some members ↦ lookup user_id members
]

unfoldable pub authorize_member : Memory → User → String → String → String → Result User
unfolding membership_of contains has_role
authorize_member m actor actor_id server_id permission =
    if has_role actor "platform_admin"
    then ok actor
    else elim (membership_of m server_id actor_id) [
      | none ↦ err (problem "NOT_FOUND" false)
      | some membership ↦
          if contains permission membership.permissions
          then ok actor
          else err (problem "FORBIDDEN" false)
    ]

unfoldable pub authorize_server : Memory → String → String → String → Result User
unfolding current_actor authorize_member
authorize_server m actor_id server_id permission = elim (current_actor m actor_id) [
  | err p ↦ err p
  | ok actor ↦ elim (lookup server_id m.servers) [
    | none ↦ err (problem "NOT_FOUND" false)
    | some server ↦ authorize_member m actor actor_id server_id permission
  ]
]
