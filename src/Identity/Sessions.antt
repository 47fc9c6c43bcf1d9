-- ===== src/Identity/Sessions.antt =====
-- internal/store/memory.go: login, sessions and CSRF tokens. `SessionView` is the user with the
-- CSRF
-- token; the name of the environment, a constant of the store, is left out.
use gu_gu_manager.Base.{
  ℕ, ◌+◌, ◌*◌, String, Bool, false, not, ◌&&◌, ◌||◌, Option, none, some, ltb, str_eq, if◌then◌else◌,
  trim_space,
}
use gu_gu_manager.Base.Maps.{lookup, insert, remove}
use gu_gu_manager.Base.Calls.{Problem, ok, err, raise, modify, ◌>>=◌, ◌>>◌, problem}
use gu_gu_manager.Identity.State.{
  User, StoredUser, Session, Identities, Exec, Platform, session_token_digest, record_audit,
}
use gu_gu_manager.Identity.Names.{minute}
use gu_gu_manager.Identity.Access.{is_active, auth_required}

abbrev pub session_ttl : ℕ
session_ttl = 12 * 60 * minute

pub record SessionView : Type 0 where
  pub user : User
  pub csrf_token : String

-- The section of `Login` that reads: the user of the address, if any, and the hash to compare with.
-- A user that is missing under its id is the empty record, with an empty hash.
abbrev credentials_of : Option StoredUser → Option StoredUser × String
credentials_of none = (none, "")
credentials_of (some u) = (some u, u.password_phc)

unfoldable pub login_credentials : Platform → String → Identities → Option StoredUser × String
unfolding trim_space lookup
login_credentials p email s = elim (lookup (p.to_lower (trim_space email)) s.user_by_email) [
  | none ↦ (none, s.admin_password_phc)
  | some id ↦ credentials_of (lookup id s.users)
]

abbrev invalid_credentials : Problem
invalid_credentials = problem "AUTH_INVALID_CREDENTIALS" false

unfoldable pub refuse_login : {A : Type 0} → String → Exec A
unfolding ◌>>=◌ record_audit
refuse_login trace = do
  modify (record_audit "Unknown actor" "auth.login" "Control Plane" "failure" trace)
  raise invalid_credentials

unfoldable pub new_session : String → User → String → ℕ → Session
new_session user_id user csrf expires = record {
  csrf_token = csrf;
  user_id = user_id;
  user = user;
  expires_at = expires;
}

-- The session is stored under the id of the user that was read, with the user of now.
unfoldable pub logged_in : String → User → String → String → String → ℕ → Identities → Identities
unfolding insert new_session record_audit
logged_in user_id user digest csrf trace expires s =
    record_audit user.display_name "auth.login" "Control Plane" "success" trace
      (record s { sessions = insert digest (new_session user_id user csrf expires) s.sessions })

-- The section of `Login` that writes: the user must be active still, with the same hash.
abbrev same_hash : String → Option StoredUser → Option StoredUser
same_hash phc none = none
same_hash phc (some u) = if is_active u && str_eq u.password_phc phc then some u else none

unfoldable pub still_valid : String → String → Identities → Option StoredUser
unfolding lookup is_active
still_valid user_id phc s = same_hash phc (lookup user_id s.users)

unfoldable pub finish_login : String → String → String → String → String → ℕ → Exec SessionView
unfolding ◌>>=◌ refuse_login logged_in still_valid
finish_login user_id phc digest csrf trace expires s = elim (still_valid user_id phc s) [
  | none ↦ refuse_login trace s
  | some u ↦ (
    ok (record { user = u.user; csrf_token = csrf }),
    logged_in user_id u.user digest csrf trace expires s,
  )
]

-- The test between the two sections.
unfoldable pub passes : Platform → String → Option StoredUser × String → Option StoredUser
unfolding is_active
passes p password (none, phc) = none
passes p password (some u, phc) =
    if is_active u && p.verify_password phc password then some u else none

-- The whole call. `token`, `csrf` and `trace` are the random values that are drawn.
unfoldable pub login : Platform → String → String → String → String → String → ℕ → Exec SessionView
unfolding login_credentials passes refuse_login finish_login session_token_digest
login p email password token csrf trace now s =
    elim (passes p password (login_credentials p email s)) [
      | none ↦ refuse_login trace s
      | some u ↦
          finish_login u.user.id (login_credentials p email s).1 (session_token_digest p token) csrf
            trace (now + session_ttl) s
    ]

-- The session and its user, when the session may be used. `time.Now().After(session.ExpiresAt)`
-- leaves the last instant valid.
unfoldable pub live_session : String → ℕ → Identities → Option (Session × StoredUser)
unfolding lookup is_active
live_session digest now s = elim (lookup digest s.sessions) [
  | none ↦ none
  | some session ↦ elim (lookup session.user_id s.users) [
    | none ↦ none
    | some u ↦ if not (is_active u) || ltb session.expires_at now then none else some (session, u)
  ]
]

unfoldable pub drop_session : String → Identities → Identities
unfolding remove
drop_session digest s = record s { sessions = remove digest s.sessions }

-- The view has no CSRF token.
unfoldable pub authenticate_session : Platform → String → ℕ → Exec SessionView
unfolding session_token_digest live_session drop_session
authenticate_session p token now s =
    let digest = session_token_digest p token in
    elim (live_session digest now s) [
      | none ↦ (err auth_required, drop_session digest s)
      | some (session, u) ↦ (ok (record { user = u.user; csrf_token = "" }), s)
    ]

unfoldable pub session_moved : String → String → Session → User → String → Identities → Identities
unfolding drop_session insert
session_moved old new session user csrf s = record s {
  sessions =
      insert new (record session { user = user; csrf_token = csrf }) (drop_session old s).sessions;
}

unfoldable pub recover_session : Platform → String → String → String → ℕ → Exec SessionView
unfolding session_token_digest live_session drop_session session_moved
recover_session p token new_token csrf now s =
    let old = session_token_digest p token in
    elim (live_session old now s) [
      | none ↦ (err auth_required, drop_session old s)
      | some (session, u) ↦ (
        ok (record { user = u.user; csrf_token = csrf }),
        session_moved old (session_token_digest p new_token) session u.user csrf s,
      )
    ]

unfoldable pub logout : Platform → String → String → Identities → Identities
unfolding session_token_digest lookup drop_session record_audit
logout p token trace s =
    let digest = session_token_digest p token in
    elim (lookup digest s.sessions) [
      | none ↦ drop_session digest s
      | some session ↦
          record_audit session.user.display_name "auth.logout" "Control Plane" "success" trace
            (drop_session digest s)
    ]

-- Here the last instant is not valid.
abbrev pub accepts : Session → StoredUser → String → ℕ → Bool
accepts session u csrf now =
    is_active u && ltb now session.expires_at && str_eq session.csrf_token csrf

unfoldable pub validate_csrf : Platform → String → String → ℕ → Identities → Bool
unfolding session_token_digest lookup is_active
validate_csrf p token csrf now s = elim (lookup (session_token_digest p token) s.sessions) [
  | none ↦ false
  | some session ↦ elim (lookup session.user_id s.users) [
    | none ↦ false
    | some u ↦ accepts session u csrf now
  ]
]
