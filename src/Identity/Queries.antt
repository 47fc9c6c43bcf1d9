-- ===== src/Identity/Queries.antt =====
-- internal/store/identity.go: the calls that only read.
use gu_gu_manager.Base.{ℕ, String, Bool, Option, none, some, List, [], ◌∷◌, if◌then◌else◌}
use gu_gu_manager.Base.Maps.{lookup}
use gu_gu_manager.Base.Calls.{Result, ok, err}
use gu_gu_manager.Identity.State.{User, StoredUser, Identities}
use gu_gu_manager.Identity.Access.{is_active, allow_actor, not_found, auth_required}

-- `SetupStatus`: the time until which the bootstrap token serves, when a setup is required.
unfoldable pub setup_status : Identities → Bool × Option ℕ
setup_status s = (s.setup_required, if s.setup_required then some s.bootstrap_expires_at else none)

abbrev or_skip : Option StoredUser → List User → List User
or_skip none others = others
or_skip (some u) others = u.user ∷ others

unfoldable pub users_in : List String → Identities → List User
unfolding lookup
users_in [] s = []
users_in (id ∷ ids) s = or_skip (lookup id s.users) (users_in ids s)

-- `Users`.
unfoldable pub users : Identities → List User
unfolding users_in
users s = users_in s.user_order s

unfoldable pub user_by_id : String → Identities → Result User
unfolding lookup
user_by_id id s = elim (lookup id s.users) [ none ↦ err not_found | some u ↦ ok u.user ]

-- `AuthorizeServer`, which asks as `authorizeServerLocked` does and answers an inactive user in
-- another way.
abbrev without_user : Result User → Result (Unit {0})
without_user (ok u) = ok tt
without_user (err p) = err p

unfoldable pub may_user : String → String → String → StoredUser → Identities → Result (Unit {0})
unfolding is_active allow_actor
may_user user_id server_id permission u s =
    if is_active u
    then without_user (allow_actor user_id server_id permission u.user s)
    else err auth_required

unfoldable pub may : String → String → String → Identities → Result (Unit {0})
unfolding lookup may_user
may user_id server_id permission s = elim (lookup user_id s.users) [
  | none ↦ err auth_required
  | some u ↦ may_user user_id server_id permission u s
]
