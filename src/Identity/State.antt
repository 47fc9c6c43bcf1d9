-- ===== src/Identity/State.antt =====
-- The fields of `Memory` (internal/store/memory.go) that internal/store/identity.go,
-- access_tokens.go, enrollment_tokens.go and the sessions of memory.go read or write. A digest is
-- the text of its bytes, a time is in nanoseconds since Go's zero time.
use Prim.Native.String.{◌++◌ as str_append}
use gu_gu_manager.Base.{ℕ, String, Bool, Option, List, ◌∷◌}
use gu_gu_manager.Base.Maps.{Assoc}
use gu_gu_manager.Base.Calls.{Call}
use gu_gu_manager.Store.Types.{AuditEvent}

pub record User : Type 0 where
  pub id : String
  pub email : String
  pub display_name : String
  pub roles : List String
  pub status : String
  pub created_at : ℕ
  pub updated_at : ℕ

pub record StoredUser : Type 0 where
  pub user : User
  pub password_phc : String

pub record Session : Type 0 where
  pub csrf_token : String
  pub user_id : String
  pub user : User
  pub expires_at : ℕ

pub record PasswordResetRecord : Type 0 where
  pub user_id : String
  pub expires_at : ℕ

pub record ApiToken : Type 0 where
  pub id : String
  pub name : String
  pub scopes : List String
  pub expires_at : Option ℕ
  pub last_used_at : Option ℕ
  pub created_at : ℕ

pub record ApiTokenRecord : Type 0 where
  pub token : ApiToken
  pub user_id : String

pub record ConsolePrincipal : Type 0 where
  pub user_id : String
  pub server_id : String
  pub expires_at : ℕ

pub record ServerMembership : Type 0 where
  pub server_id : String
  pub user_id : String
  pub permissions : List String
  pub created_at : ℕ
  pub updated_at : ℕ

-- Of servers and nodes, these calls only ask whether an id is there.
pub record Identities : Type 0 where
  pub users : Assoc StoredUser
  pub user_order : List String
  pub user_by_email : Assoc String
  pub sessions : Assoc Session
  pub memberships : Assoc (Assoc ServerMembership)
  pub password_reset_tokens : Assoc PasswordResetRecord
  pub api_tokens : Assoc ApiTokenRecord
  pub api_token_by_digest : Assoc String
  pub console_tokens : Assoc ConsolePrincipal
  pub enrollment_tokens : Assoc ℕ
  pub setup_required : Bool
  pub bootstrap_token : String
  pub bootstrap_expires_at : ℕ
  pub admin_password_phc : String
  pub servers : List String
  pub nodes : List String
  pub revoked_nodes : Assoc Bool
  pub audit : List AuditEvent

abbrev pub Exec : Type 0 → Type 0
Exec A = Call Identities A

-- What the calls use of Go's standard library and of internal/identity: SHA-256, the Unicode case
-- table, `mail.ParseAddress` (the address of what it parses), and the hashing of passwords, whose
-- first argument is the salt.
pub record Platform : Type 0 where
  pub digest : String → String
  pub to_lower : String → String
  pub parse_address : String → Option String
  pub hash_password : String → String → Option String
  pub verify_password : String → String → Bool

unfoldable pub token_digest : Platform → String → String
token_digest p token = p.digest token

unfoldable pub session_token_digest : Platform → String → String
session_token_digest p token = p.digest (str_append "gugumanager:session:v2:\0" token)

unfoldable pub record_audit : String → String → String → String → String → Identities → Identities
record_audit actor action target result operation_id s = record s {
  audit =
      record {
        actor_name = actor;
        action = action;
        target_name = target;
        result = result;
        operation_id = operation_id;
      }
      ∷ s.audit;
}
