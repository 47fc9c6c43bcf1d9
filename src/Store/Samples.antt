-- ===== src/Store/Samples.antt =====
-- A small store: a user, a node, a server, and requests on it.
use gu_gu_manager.Base.{ℕ, String, true, none, some, List, [], ◌∷◌}
use Prim.Native.String.{◌++◌ as str_append}
use gu_gu_manager.Store.Allocations.Mutations.{CreateAllocationInput}
use gu_gu_manager.Store.Allocations.Requests.{AllocationRequest}
use gu_gu_manager.Store.Types.{
  Allocation, Backup, Operation, User, Server, Node, IdempotencyRecord, StartupVariable, Memory,
}
use gu_gu_manager.Store.Exec.{Result, ok}
use gu_gu_manager.Store.Metadata.{new_queued_operation}
use gu_gu_manager.Store.Power.{PowerRequest}
use gu_gu_manager.Store.Backups.Requests.{BackupRequest}
use gu_gu_manager.Store.Exclusion.Runs.{Step, power, backup, begin, powered}

abbrev pub admin : User
admin = record { id = "u1"; display_name = "Ada"; roles = "platform_admin" ∷ []; status = "active" }

abbrev pub host : Node
host = record {
  id = "n1";
  name = "node";
  condition = "available";
  version = "1";
  last_heartbeat_at = 5;
  capabilities = "server.reconcile/v1" ∷ [];
}

abbrev pub game_server : Server
game_server = record {
  id = "s1";
  name = "survival";
  game_id = "g1";
  game_bundle_digest = "d";
  node_id = "n1";
  allocation = "";
  lifecycle_state = "ready";
  desired_power = "stopped";
  observed_power = "stopped";
  node_condition = "available";
  health_condition = "unknown";
  generation = 3;
  observed_generation = 3;
  observed_at = 5;
  disk_bytes = 7;
  updated_at = 5;
}

abbrev pub memory : Memory
memory = record {
  users = ("u1", admin) ∷ [];
  memberships = [];
  servers = ("s1", game_server) ∷ [];
  nodes = ("n1", host) ∷ [];
  revoked_nodes = [];
  operations = [];
  idempotency = [];
  startup_values = [];
  allocations = [];
  allocation_order = [];
  audit = [];
  backups = [];
  backup_checksums = [];
  backup_operations = [];
  backup_delete_from = [];
}

abbrev pub no_variables : Memory → Server → Result (List StartupVariable)
no_variables m server = ok []

abbrev pub start_request : PowerRequest
start_request = record {
  server_id = "s1";
  action = "start";
  key = "0123456789abcdef";
  actor_id = "u1";
  now = 10;
  new_id = "o1";
  digest = "start";
}

abbrev pub backup_request : BackupRequest
backup_request = record {
  server_id = "s1";
  backup_id = "b1";
  key = "0123456789abcdef";
  actor_id = "u1";
  now = 12;
  new_id = "o2";
  digest = "create";
}

abbrev pub plain_checksum : String → Server → ℕ → String
plain_checksum id server now = str_append "sha256:" id

abbrev pub plain_manifest : String → String
plain_manifest checksum = str_append "sha256:" checksum

abbrev pub steps : List Step
steps =
    power start_request
    ∷ begin "o1" 11
    ∷ backup backup_request
    ∷ powered "o1" "s1" "start" 20
    ∷ backup backup_request
    ∷ []

abbrev pub started : Operation
started = new_queued_operation "o1" "s1" "n1" "start" 4 "0123456789abcdef" 10

abbrev pub first_allocation : Allocation
first_allocation = record {
  id = "a1";
  server_id = "s1";
  node_id = "n1";
  bind_ip = "10.0.0.1";
  port = 25565;
  protocol = "tcp";
  port_ref = "";
  container_port = 25565;
  role = "primary";
  primary = true;
  created_at = 1;
  updated_at = 1;
}

-- The memory with one allocation.
abbrev pub network : Memory
network = record memory {
  allocations = ("a1", first_allocation) ∷ [];
  allocation_order = ("s1", "a1" ∷ []) ∷ [];
}

abbrev pub allocation_request : AllocationRequest
allocation_request = record {
  server_id = "s1";
  expected_generation = 3;
  key = "0123456789abcdef";
  digest = "allocate";
  actor_id = "u1";
  now = 12;
  new_id = "o3";
}

abbrev pub second_port : CreateAllocationInput
second_port = record {
  bind_ip = "10.0.0.1";
  port = 25566;
  protocol = "tcp";
  port_ref = "";
  container_port = 25566;
  role = "query";
  primary = true;
}

abbrev pub stored_backup : Backup
stored_backup = record {
  id = "b1";
  status = "ready";
  size_bytes = some 7;
  checksum = some "sha256:0123456789abcdef0123456789abcdef0123456789abcdef0123456789abcdef";
  manifest_digest = none;
  created_at = 1;
  completed_at = some 2;
  failure_code = none;
  deleted_at = none;
}

-- The memory with a backup that can be restored.
abbrev pub archive : Memory
archive = record memory {
  backups = ("s1", stored_backup ∷ []) ∷ [];
  backup_checksums =
      ("b1", "sha256:0123456789abcdef0123456789abcdef0123456789abcdef0123456789abcdef") ∷ [];
}

-- A memory that has the operation and a record of it under the key of a request.
abbrev pub recorded_in : String → String → Memory
recorded_in scope digest = record memory {
  operations = ("o1", started) ∷ [];
  idempotency = (scope, record { operation_id = "o1"; request_digest = digest }) ∷ [];
}

abbrev pub record_with : String → IdempotencyRecord
record_with digest = record { operation_id = "o1"; request_digest = digest }
