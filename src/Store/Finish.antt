-- ===== src/Store/Finish.antt =====
-- The background workers of internal/store/operations.go and of network_startup.go. Each section
-- that a worker runs under the lock is a function; other calls may run between them.
use gu_gu_manager.Base.{
  ℕ, String, Bool, true, false, ◌&&◌, ◌||◌, Option, none, some, str_eq, if◌then◌else◌,
}
use gu_gu_manager.Base.Maps.{lookup, insert}
use gu_gu_manager.Store.Types.{Operation, Server, Memory}
use gu_gu_manager.Store.Metadata.{
  is_terminal_operation, running_checkpoint, normalize_operation_metadata, begin_metadata,
  complete_operation_for_generation,
}
use gu_gu_manager.Store.Power.{record_audit}

-- `beginOperation`: the new state, and whether the worker goes on.
unfoldable pub begin_operation : String → ℕ → Memory → Memory × Bool
unfolding lookup insert begin_metadata is_terminal_operation
begin_operation id now m = elim (lookup id m.operations) [
  | none ↦ (m, false)
  | some o ↦
      if is_terminal_operation o.status
      then (m, false)
      else (record m { operations = insert id (begin_metadata o now) m.operations }, true)
]

-- The metadata in the middle of `finishPower`.
unfoldable pub progress_metadata : Operation → ℕ → Operation
unfolding normalize_operation_metadata running_checkpoint
progress_metadata o now = record (normalize_operation_metadata o) {
  status = "running";
  progress = 55;
  checkpoint = running_checkpoint (normalize_operation_metadata o).type;
  updated_at = now;
}

unfoldable pub progress_power : String → ℕ → Memory → Memory
unfolding lookup insert is_terminal_operation
progress_power id now m = elim (lookup id m.operations) [
  | none ↦ m
  | some o ↦
      if is_terminal_operation o.status
      then m
      else record m { operations = insert id (progress_metadata o now) m.operations }
]

-- What a worker does with the server when its operation has succeeded.
abbrev pub Settle : Type 0
Settle = Operation → Server → Server

-- The last section of a worker with the result of `completeOperationForGenerationLocked`.
unfoldable pub store_finished :
    Settle → String → String → Option Server → Operation × Bool → Memory → Memory
unfolding insert
store_finished settle id server_id server (o, false) m = m
store_finished settle id server_id none (o, true) m = record m {
  operations = insert id o m.operations;
}
store_finished settle id server_id (some server) (o, true) m = record m {
  operations = insert id o m.operations;
  servers =
      if str_eq o.status "succeeded"
      then insert server_id (settle o server) m.servers
      else m.servers;
}

unfoldable pub finish : Settle → String → String → ℕ → Memory → Memory
unfolding lookup store_finished complete_operation_for_generation
finish settle id server_id now m = elim (lookup id m.operations) [
  | none ↦ m
  | some o ↦
      let server = lookup server_id m.servers in
      store_finished settle id server_id server (complete_operation_for_generation o server now) m
]

unfoldable pub settle_provision : ℕ → Settle
settle_provision now o server = record server {
  lifecycle_state = "ready";
  observed_power = "stopped";
  observed_generation = server.generation;
  observed_at = now;
  updated_at = now;
}

unfoldable pub finish_provision : String → String → ℕ → Memory → Memory
unfolding finish settle_provision
finish_provision id server_id now m = finish (settle_provision now) id server_id now m

unfoldable pub is_now_running : String → Server → Bool
is_now_running action server =
    str_eq action "start" || (str_eq action "restart" && str_eq server.desired_power "running")

unfoldable pub settle_power : String → ℕ → Settle
unfolding is_now_running
settle_power action now o server = record server {
  observed_power = if is_now_running action server then "running" else "stopped";
  health_condition = if is_now_running action server then "healthy" else "unknown";
  observed_generation = server.generation;
  observed_at = now;
  updated_at = now;
}

unfoldable pub finish_power : String → String → String → ℕ → Memory → Memory
unfolding finish settle_power
finish_power id server_id action now m = finish (settle_power action now) id server_id now m

unfoldable pub settle_reconcile : ℕ → Settle
settle_reconcile now o server = record server {
  observed_generation = o.generation;
  observed_at = now;
  updated_at = now;
}

-- The audit event of `finishReconcile`, for an operation that was finished.
unfoldable pub audit_finished :
    String → String → String → String → Option Server → Operation × Bool → Memory → Memory
unfolding record_audit
audit_finished actor action id server_id server (o, false) m = m
audit_finished actor action id server_id server (o, true) m =
    record_audit actor action (elim server [ none ↦ server_id | some s ↦ s.name ])
      (if str_eq o.status "succeeded" then "success" else "failure") id m

unfoldable pub finish_reconcile : String → String → String → String → ℕ → Memory → Memory
unfolding lookup store_finished settle_reconcile audit_finished complete_operation_for_generation
finish_reconcile id server_id actor action now m = elim (lookup id m.operations) [
  | none ↦ m
  | some o ↦
      let server = lookup server_id m.servers in
      let result = complete_operation_for_generation o server now in
      audit_finished actor action id server_id server result
        (store_finished (settle_reconcile now) id server_id server result m)
]
