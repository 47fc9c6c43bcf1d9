-- ===== src/Identity/Tests.antt =====
-- The theorems on the identity calls at inputs that meet their hypotheses, and tests.
use gu_gu_manager.Base.{
  List, All, ◌+◌, ◌≤◌, ◌≡◌, ◌≢◌, refl, String, true, false, none, some, [], ◌∷◌, str_eq, eq_iff,
  arith, length, contains, trim_space, map,
}
use gu_gu_manager.Base.Maps.{AllValues, lookup}
use gu_gu_manager.Base.Calls.{ok, err, problem}
use gu_gu_manager.Identity.State.{Session, session_token_digest}
use gu_gu_manager.Identity.Names.{normalize_permissions, allowed_server_permissions}
use gu_gu_manager.Identity.Sorting.{IsOrdered}
use gu_gu_manager.Identity.Access.{auth_required, authorize_server, effective_server_permissions}
use gu_gu_manager.Identity.Grants.{is_ok, normalize_permissions-IsOrdered, effective-authorize}
use gu_gu_manager.Identity.Tokens.{
  CreateApiTokenInput, create_api_token, issue_console_connection_token,
  consume_console_connection_token, console_connection_ttl,
}
use gu_gu_manager.Identity.Logins.{login_authenticated, recover_session_moved}
use gu_gu_manager.Identity.Renewal.{reset_password-renews}
use gu_gu_manager.Identity.Once.{setup_once}
use gu_gu_manager.Identity.ConsoleTokens.{console_token_once}
use gu_gu_manager.Identity.ApiTokens.{HasLifetime, api_token_lifetime}
use gu_gu_manager.Identity.Users.{active_admin_count, finish_create_user, finish_setup, setup_admin}
use gu_gu_manager.Identity.Resets.{issue_password_reset_token, reset_password, password_reset_ttl}
use gu_gu_manager.Identity.Sessions.{
  finish_login, login, authenticate_session, recover_session, validate_csrf,
}
use gu_gu_manager.Identity.Members.{put_server_membership}
use gu_gu_manager.Identity.Updates.{finish_update_user}
use gu_gu_manager.Identity.Runs.{run}
use gu_gu_manager.Identity.Emails.{AreConsistent, run-AreConsistent}
use gu_gu_manager.Identity.Admins.{run-HasAdmin}
use gu_gu_manager.Identity.Credentials.{AreSound, run-AreSound}
use gu_gu_manager.Identity.Samples.{
  plain_platform, sample_user, ann, bob, blank, start, steps, blank-AreConsistent,
  start-AreConsistent, steps-AreFresh, start-AreSound,
}

run-HasAdmin_example : 1 ≤ active_admin_count (run plain_platform steps start).users
unfolding issue_password_reset_token finish_login put_server_membership finish_create_user
    finish_setup active_admin_count
run-HasAdmin_example =
    run-HasAdmin plain_platform steps start steps-AreFresh start-AreConsistent (omega arith)

run-AreConsistent_example : AreConsistent (run plain_platform steps start)
run-AreConsistent_example =
    run-AreConsistent plain_platform steps start steps-AreFresh start-AreConsistent

run-AreSound_example : AreSound (run plain_platform steps start)
run-AreSound_example =
    run-AreSound plain_platform steps start steps-AreFresh start-AreConsistent start-AreSound

-- Bob had a session, and has none any more.
revoked_session :
    (length start.sessions ≡ 1) × (length (run plain_platform steps start).sessions ≡ 0)
unfolding issue_password_reset_token finish_login put_server_membership finish_create_user
    finish_setup finish_update_user
revoked_session = (refl, refl)

-- Ann is the last administrator: her own demotion is refused.
last_admin :
    (finish_update_user "ann"
      (record { display_name = none; status = none; roles = some ("server_owner" ∷ []) })
      ann
      11
      start).0
    ≡ err (problem "OPERATION_CONFLICT" false)
unfolding issue_password_reset_token finish_login put_server_membership finish_create_user
    finish_setup finish_update_user
last_admin = refl

login_authenticated_example :
    let t = (login plain_platform "bob@host" "bobsecret" "two" "csrf2" "trace" 20 start).1 in
    (authenticate_session plain_platform "two" 30 t
      ≡ (ok (record { user = bob; csrf_token = "" }), t))
    × (validate_csrf plain_platform "two" "csrf1" 30 t ≡ str_eq "csrf2" "csrf1")
unfolding issue_password_reset_token finish_login put_server_membership finish_create_user
    finish_setup login
login_authenticated_example =
    login_authenticated plain_platform "bob@host" "bobsecret" "two" "csrf2" "trace" 20 30
      (record { user = bob; csrf_token = "csrf2" }) start "csrf1" refl (omega arith)

digests_apart :
    session_token_digest plain_platform "one" ≢ session_token_digest plain_platform "two"
unfolding session_token_digest
digests_apart e =
    let same : false ≡ true =
      (eq_iff (session_token_digest plain_platform "one")
          (session_token_digest plain_platform "two")).1
        e in
    cc same

recover_session_moved_example :
    let t = (recover_session plain_platform "one" "two" "csrf2" 20 start).1 in
    (authenticate_session plain_platform "two" 30 t
      ≡ (ok (record { user = bob; csrf_token = "" }), t))
    × (validate_csrf plain_platform "two" "csrf1" 30 t ≡ str_eq "csrf2" "csrf1")
    × ((authenticate_session plain_platform "one" 30 t).0 ≡ err auth_required)
unfolding issue_password_reset_token finish_login put_server_membership finish_create_user
    finish_setup recover_session
recover_session_moved_example =
    recover_session_moved plain_platform "one" "two" "csrf2" 20
      (record { user = bob; csrf_token = "csrf2" }) start
      (record { csrf_token = "csrf"; user_id = "bob"; user = bob; expires_at = 100 }) refl
      digests_apart 30 "csrf1" refl (omega arith)

verifies :
    (salt plain phc : String)
    → plain_platform.hash_password salt plain ≡ some phc
    → plain_platform.verify_password phc plain ≡ true
verifies salt plain phc e = ground (arith, eq_iff phc plain)

reset_password-renews_example :
    let t = (reset_password plain_platform "reset" "newsecret" "salt" 10 11 start).1 in
    ((reset_password plain_platform "reset" "newsecret2" "salt" 12 13 t).0 ≢ ok tt)
    × AllValues (λ (x : Session). str_eq x.user_id "bob" ≡ false) t.sessions
    × ((login plain_platform "bob@host" "newsecret" "two" "csrf2" "trace" 20 t).0
        ≡ ok (record { user = record bob { updated_at = 11 }; csrf_token = "csrf2" }))
unfolding issue_password_reset_token finish_login put_server_membership finish_create_user
    finish_setup reset_password
reset_password-renews_example =
    reset_password-renews plain_platform verifies start start-AreConsistent (refl, tt) "reset"
      "newsecret" "salt" 10 11 (record { user_id = "bob"; expires_at = 3 + password_reset_ttl })
      (record { user = bob; password_phc = "bobsecret" }) refl refl refl "newsecret2" "salt" 12 13
      "bob@host" "two" "csrf2" "trace" 20 refl

setup_once_example :
    (setup_admin plain_platform
      (record {
        email = "eve@host";
        display_name = "Eve";
        password = "evesecret";
        bootstrap_token = "boot";
      })
      "eve"
      "salt"
      2
      3
      (run plain_platform [] (finish_setup "ann" "ann@host" "Ann" "annsecret" "boot" 1 blank).1)).0
    ≢ ok (sample_user "eve" "eve@host" [])
unfolding finish_setup lookup
setup_once_example =
    setup_once plain_platform "ann" "ann@host" "Ann" "annsecret" "boot" 1 blank
      (record (sample_user "ann" "ann@host" ("platform_admin" ∷ [])) { display_name = "Ann" }) []
      blank-AreConsistent refl refl tt
      (record {
        email = "eve@host";
        display_name = "Eve";
        password = "evesecret";
        bootstrap_token = "boot";
      })
      "eve" "salt" 2 3 (sample_user "eve" "eve@host" [])

console_token_once_example :
    ((consume_console_connection_token plain_platform "tok" 30
        (issue_console_connection_token plain_platform "srv" "bob" "tok" 20 start).1).0
      ≡ ok
          (record { user_id = "bob"; server_id = "srv"; expires_at = 20 + console_connection_ttl }))
    × ((consume_console_connection_token plain_platform "tok" 31
          (consume_console_connection_token plain_platform "tok" 30
            (issue_console_connection_token plain_platform "srv" "bob" "tok" 20 start).1).1).0
        ≡ err auth_required)
unfolding issue_password_reset_token finish_login put_server_membership finish_create_user
    finish_setup issue_console_connection_token
console_token_once_example =
    console_token_once plain_platform "srv" "bob" "tok" start 20 30 31 (20 + console_connection_ttl)
      refl (omega arith)

abbrev reader : CreateApiTokenInput
reader = record { name = "ci"; scopes = "servers.read" ∷ "audit.read" ∷ []; expires_at = none }

api_token_lifetime_example :
    HasLifetime plain_platform reader "bob" "key" "t1" "trace" 20 start
      (record {
        id = "t1";
        name = "ci";
        scopes = "audit.read" ∷ "servers.read" ∷ [];
        expires_at = none;
        last_used_at = none;
        created_at = 20;
      })
      30
      "trace2"
      (create_api_token plain_platform reader "bob" "key" "t1" "trace" 20 start).1
unfolding issue_password_reset_token finish_login put_server_membership finish_create_user
    finish_setup create_api_token
api_token_lifetime_example =
    api_token_lifetime plain_platform reader "bob" "key" "t1" "trace" 20 start
      start-AreConsistent.keyed tt _ 30 "trace2" refl refl

normalize_permissions-IsOrdered_example :
    let kept : List String = "servers.console" ∷ "servers.read" ∷ [] in
    IsOrdered kept
    × (contains "servers.power" kept
        ≡ contains "servers.power"
            (map trim_space (" servers.read" ∷ "servers.console" ∷ "servers.read" ∷ [])))
    × All (λ y. contains y allowed_server_permissions ≡ true) kept
    × (contains "servers.read" kept ≡ true)
unfolding normalize_permissions
normalize_permissions-IsOrdered_example =
    normalize_permissions-IsOrdered (" servers.read" ∷ "servers.console" ∷ "servers.read" ∷ [])
      ("servers.console" ∷ "servers.read" ∷ []) "servers.power" refl

effective-authorize_example :
    is_ok (authorize_server "bob" "srv" "servers.power" start)
    ≡ contains "servers.power" ("servers.console" ∷ "servers.read" ∷ [])
unfolding issue_password_reset_token finish_login put_server_membership finish_create_user
    finish_setup effective_server_permissions
effective-authorize_example =
    effective-authorize "bob" "srv" start ("servers.console" ∷ "servers.read" ∷ []) "servers.power"
      refl refl
