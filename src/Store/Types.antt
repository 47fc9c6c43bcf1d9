-- ===== src/Store/Types.antt =====
-- The records of internal/domain (models.go, power.go) and `Memory` of
-- internal/store/memory.go, with the fields that the modelled calls read or write. Times are
-- nanoseconds since Go's zero time.
use gu_gu_manager.Base.{ℕ, String, Bool, Option, List}
use gu_gu_manager.Base.Maps.{Assoc}
pub use gu_gu_manager.Base.Calls.{Problem}

-- `OperationError`, without the text that is shown to the user.
pub record OperationError : Type 0 where
  pub code : String
  pub retryable : Bool

pub record Operation : Type 0 where
  pub id : String
  pub server_id : String
  pub node_id : String
  pub type : String
  pub status : String
  pub progress : ℕ
  pub generation : ℕ
  pub attempt : ℕ
  pub max_attempts : ℕ
  pub lease_owner : Option String
  pub lease_expires_at : Option ℕ
  pub checkpoint : String
  pub error : Option OperationError
  pub idempotency_key : String
  pub created_at : ℕ
  pub updated_at : ℕ

pub record User : Type 0 where
  pub id : String
  pub display_name : String
  pub roles : List String
  pub status : String

pub record ServerMembership : Type 0 where
  pub permissions : List String

pub record Server : Type 0 where
  pub id : String
  pub name : String
  pub game_id : String
  pub game_bundle_digest : String
  pub node_id : String
  pub allocation : String
  pub lifecycle_state : String
  pub desired_power : String
  pub observed_power : String
  pub node_condition : String
  pub health_condition : String
  pub generation : ℕ
  pub observed_generation : ℕ
  pub observed_at : ℕ
  pub disk_bytes : ℕ
  pub updated_at : ℕ

pub record Node : Type 0 where
  pub id : String
  pub name : String
  pub condition : String
  pub version : String
  pub last_heartbeat_at : ℕ
  pub capabilities : List String

pub record Backup : Type 0 where
  pub id : String
  pub status : String
  pub size_bytes : Option ℕ
  pub checksum : Option String
  pub manifest_digest : Option String
  pub created_at : ℕ
  pub completed_at : Option ℕ
  pub failure_code : Option String
  pub deleted_at : Option ℕ

pub record Allocation : Type 0 where
  pub id : String
  pub server_id : String
  pub node_id : String
  pub bind_ip : String
  pub port : ℕ
  pub protocol : String
  pub port_ref : String
  pub container_port : ℕ
  pub role : String
  pub primary : Bool
  pub created_at : ℕ
  pub updated_at : ℕ

pub record IdempotencyRecord : Type 0 where
  pub operation_id : String
  pub request_digest : String

pub record AuditEvent : Type 0 where
  pub actor_name : String
  pub action : String
  pub target_name : String
  pub result : String
  pub operation_id : String

-- A startup variable as `RequestPower` reads it.
pub record StartupVariable : Type 0 where
  pub key : String
  pub required : Bool

pub record Memory : Type 0 where
  pub users : Assoc User
  pub memberships : Assoc (Assoc ServerMembership)
  pub servers : Assoc Server
  pub nodes : Assoc Node
  pub revoked_nodes : Assoc Bool
  pub operations : Assoc Operation
  pub idempotency : Assoc IdempotencyRecord
  pub startup_values : Assoc (Assoc (Option String))
  pub allocations : Assoc Allocation
  pub allocation_order : Assoc (List String)
  pub audit : List AuditEvent
  pub backups : Assoc (List Backup)
  pub backup_checksums : Assoc String
  pub backup_operations : Assoc String
  pub backup_delete_from : Assoc String
