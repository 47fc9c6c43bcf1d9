-- ===== src/Store/Metadata.antt =====
-- internal/store/operations.go and internal/domain/power.go: the life of an operation.
use gu_gu_manager.Base.{
  ℕ, ◌+◌, String, Bool, true, false, not, ◌&&◌, ◌||◌, Option, none, some, ltb, ◌==◌, str_eq,
  if◌then◌else◌, is_some, is_empty,
}
use gu_gu_manager.Store.Types.{Operation, OperationError, Server}

unfoldable pub new_queued_operation : String → String → String → String → ℕ → String → ℕ → Operation
new_queued_operation id server_id node_id type generation key now = record {
  id = id;
  server_id = server_id;
  node_id = node_id;
  type = type;
  status = "queued";
  progress = 0;
  generation = generation;
  attempt = 1;
  max_attempts = 1;
  lease_owner = none;
  lease_expires_at = none;
  checkpoint = "queued";
  error = none;
  idempotency_key = key;
  created_at = now;
  updated_at = now;
}

unfoldable pub is_terminal_operation : String → Bool
is_terminal_operation status = str_eq status "succeeded" || str_eq status "failed"

unfoldable pub is_exclusive_operation : String → Bool
is_exclusive_operation type =
    str_eq type "provision"
    || str_eq type "start"
    || str_eq type "stop"
    || str_eq type "restart"
    || str_eq type "kill"
    || str_eq type "backup"
    || str_eq type "restore"
    || str_eq type "backup-delete"
    || str_eq type "delete"
    || str_eq type "reconcile"

unfoldable pub running_checkpoint : String → String
running_checkpoint type =
    if str_eq type "provision"
    then "provisioning"
    else if str_eq type "start" || str_eq type "stop" || str_eq type "restart" || str_eq type "kill"
    then "applying-power-state"
    else if str_eq type "backup"
    then "creating-backup"
    else if str_eq type "restore"
    then "restoring-backup"
    else if str_eq type "backup-delete"
    then "deleting-backup"
    else if str_eq type "reconcile"
    then "reconciling"
    else "running"

-- `memoryOperationLeaseOwner` and `memoryOperationLeaseDuration`.
abbrev pub lease_owner_name : String
lease_owner_name = "development-memory-worker"

abbrev pub lease_duration : ℕ
lease_duration = 30000000000

-- The `switch` that fills an empty checkpoint.
unfoldable pub default_checkpoint : Operation → String
unfolding running_checkpoint
default_checkpoint o =
    if str_eq o.status "succeeded"
    then "completed"
    else if str_eq o.status "failed"
    then "failed"
    else if str_eq o.status "running"
    then running_checkpoint o.type
    else o.status

-- The lines on the attempts.
unfoldable pub normalize_attempts : Operation → Operation
normalize_attempts o =
    let attempt = if ltb o.attempt 1 then 1 else o.attempt in
    record o {
      attempt = attempt;
      max_attempts = if ltb o.max_attempts attempt then attempt else o.max_attempts;
    }

abbrev operation_failed : OperationError
operation_failed = record { code = "OPERATION_FAILED"; retryable = false }

unfoldable pub normalize_operation_metadata : Operation → Operation
unfolding normalize_attempts default_checkpoint is_terminal_operation is_empty
normalize_operation_metadata given =
    let o = normalize_attempts given in
    record o {
      checkpoint = if is_empty o.checkpoint then default_checkpoint o else o.checkpoint;
      lease_owner = if is_terminal_operation o.status then none else o.lease_owner;
      lease_expires_at = if is_terminal_operation o.status then none else o.lease_expires_at;
      error =
          if str_eq o.status "failed" && not (is_some o.error)
          then some operation_failed
          else o.error;
    }

-- `beginOperation`, once the operation is found and not terminal.
unfoldable pub begin_metadata : Operation → ℕ → Operation
unfolding normalize_operation_metadata running_checkpoint
begin_metadata given now =
    let o = normalize_operation_metadata given in
    record o {
      status = "running";
      progress = if ltb o.progress 5 then 5 else o.progress;
      checkpoint = running_checkpoint o.type;
      lease_owner = some lease_owner_name;
      lease_expires_at = some (now + lease_duration);
      error = none;
      updated_at = now;
    }

-- The changes to `*operation`, and the result. The metadata is normalized on every branch.
unfoldable pub complete_operation : Operation → ℕ → Operation × Bool
unfolding normalize_operation_metadata
complete_operation given now =
    let o = normalize_operation_metadata given in
    if is_terminal_operation o.status then (o, false) else (
      record o {
        status = "succeeded";
        progress = 100;
        checkpoint = "completed";
        lease_owner = none;
        lease_expires_at = none;
        error = none;
        updated_at = now;
      },
      true,
    )

unfoldable pub fail_operation : Operation → OperationError → ℕ → Operation × Bool
unfolding normalize_operation_metadata
fail_operation given failure now =
    let o = normalize_operation_metadata given in
    if is_terminal_operation o.status then (o, false) else (
      record o {
        status = "failed";
        progress = 100;
        checkpoint = "failed";
        lease_owner = none;
        lease_expires_at = none;
        error = some failure;
        updated_at = now;
      },
      true,
    )

-- A server that is not found is `none`.
unfoldable pub operation_targets_current_server : Operation → Option Server → Bool
operation_targets_current_server o none = false
operation_targets_current_server o (some server) =
    server.generation == o.generation && str_eq server.node_id o.node_id

abbrev pub operation_stale : OperationError
operation_stale = record { code = "OPERATION_STALE"; retryable = false }

unfoldable pub complete_operation_for_generation : Operation → Option Server → ℕ → Operation × Bool
unfolding operation_targets_current_server complete_operation fail_operation
complete_operation_for_generation o server now =
    if operation_targets_current_server o server
    then complete_operation o now
    else fail_operation o operation_stale now
