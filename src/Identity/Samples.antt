-- ===== src/Identity/Samples.antt =====
-- A store that is set up by a run of the identity calls, for the tests.
use gu_gu_manager.Base.{refl, String, true, none, some, List, [], ◌∷◌, str_eq, arith}
use gu_gu_manager.Base.Maps.{lookup}
use gu_gu_manager.Identity.State.{User, Identities, Platform}
use gu_gu_manager.Identity.Users.{finish_create_user, finish_setup}
use gu_gu_manager.Identity.Resets.{issue_password_reset_token}
use gu_gu_manager.Identity.Sessions.{finish_login}
use gu_gu_manager.Identity.Members.{put_server_membership}
use gu_gu_manager.Identity.Updates.{finish_update_user}
use gu_gu_manager.Identity.Runs.{
  Step, set_up, create, update, put_member, log_in, issue_reset, run, AreFresh,
}
use gu_gu_manager.Identity.Emails.{AreConsistent, run-AreConsistent}
use gu_gu_manager.Identity.Credentials.{AreSound, run-AreSound}

-- Texts stand for their digests and passwords for their hashes.
abbrev pub plain_platform : Platform
plain_platform = record {
  digest = λ t. t;
  to_lower = λ t. t;
  parse_address = λ t. some t;
  hash_password = λ salt t. some t;
  verify_password = λ phc t. str_eq phc t;
}

abbrev pub sample_user : String → String → List String → User
sample_user id email roles = record {
  id = id;
  email = email;
  display_name = id;
  roles = roles;
  status = "active";
  created_at = 1;
  updated_at = 1;
}

abbrev pub ann : User
ann = sample_user "ann" "ann@host" ("platform_admin" ∷ [])

abbrev pub bob : User
bob = sample_user "bob" "bob@host" ("server_owner" ∷ [])

abbrev pub cid : User
cid = sample_user "cid" "cid@host" ("server_owner" ∷ [])

-- `NewMemoryForSetup`, with a server.
abbrev pub blank : Identities
blank = record {
  users = [];
  user_order = [];
  user_by_email = [];
  sessions = [];
  memberships = [];
  password_reset_tokens = [];
  api_tokens = [];
  api_token_by_digest = [];
  console_tokens = [];
  enrollment_tokens = [];
  setup_required = true;
  bootstrap_token = "boot";
  bootstrap_expires_at = 100;
  admin_password_phc = "none";
  servers = "srv" ∷ [];
  nodes = [];
  revoked_nodes = [];
  audit = [];
}

pub blank-AreConsistent : AreConsistent blank
unfolding lookup
blank-AreConsistent = record {
  keyed = λ id u e. absurd (ground arith);
  indexed = λ email id e. absurd (ground arith);
  listed = λ id u e. absurd (ground arith);
}

-- Ann sets the store up, adds Bob and lets him use the console; Bob logs in.
abbrev pub opening : List Step
opening =
    set_up "ann" "ann@host" "Ann" "annsecret" "boot" 1
    ∷ create ann "bobsecret" bob
    ∷ put_member "srv" "bob" ("servers.read" ∷ "servers.console" ∷ []) ann 2
    ∷ log_in "bob" "bobsecret" "gugumanager:session:v2:\0one" "csrf" "trace" 100
    ∷ issue_reset "bob" ann "reset" 3
    ∷ []

abbrev pub start : Identities
start = run plain_platform opening blank

-- Bob is disabled, Cid is added, and Ann may not step down.
abbrev pub steps : List Step
steps =
    update "bob" (record { display_name = none; status = some "disabled"; roles = none }) ann 10
    ∷ create ann "cidsecret" cid
    ∷ update "ann"
        (record { display_name = none; status = none; roles = some ("server_owner" ∷ []) }) ann 11
    ∷ []

pub opening-AreFresh : AreFresh plain_platform opening blank
unfolding finish_setup lookup
opening-AreFresh = (refl, (refl, (tt, (tt, (tt, tt)))))

pub start-AreConsistent : AreConsistent start
start-AreConsistent =
    run-AreConsistent plain_platform opening blank opening-AreFresh blank-AreConsistent

pub steps-AreFresh : AreFresh plain_platform steps start
unfolding issue_password_reset_token finish_login put_server_membership finish_create_user
    finish_setup finish_update_user
steps-AreFresh = (tt, (refl, (tt, tt)))

pub start-AreSound : AreSound start
start-AreSound =
    run-AreSound plain_platform opening blank opening-AreFresh blank-AreConsistent (tt, tt, tt, tt)
