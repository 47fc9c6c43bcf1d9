-- ===== src/Store/Allocations/Requests.antt =====
-- `requestReconcile` of internal/store/network_startup.go, and the three requests on allocations.
use Prim.Native.String.{◌++◌ as str_append}
use gu_gu_manager.Base.{
  ℕ, ◌+◌, String, true, false, none, some, ◌==◌, str_eq, if◌then◌else◌, contains, trim_space,
  is_empty,
}
use gu_gu_manager.Base.Maps.{lookup, insert}
use gu_gu_manager.Store.Types.{Operation, User, Server, Node, Memory}
use gu_gu_manager.Store.Exec.{
  ok, err, Exec, pure, raise, lift, modify, ◌>>=◌, ◌>>◌, require, problem,
}
use gu_gu_manager.Store.Metadata.{new_queued_operation}
use gu_gu_manager.Store.Idempotency.{
  validate_idempotency_key, idempotency_scope, put_operation, remember,
}
use gu_gu_manager.Store.Liveness.{reconcile_node_liveness}
use gu_gu_manager.Store.Power.{authorize, replay, find_server, record_audit}
use gu_gu_manager.Store.Backups.Requests.{require_idle}
use gu_gu_manager.Store.Allocations.Mutations.{
  CreateAllocationInput, create_mutation, set_primary_mutation, delete_mutation,
}

-- A call, with the scope, the permission and the audit action of its kind.
pub record ReconcileRequest : Type 0 where
  pub server_id : String
  pub expected_generation : ℕ
  pub key : String
  pub scope : String
  pub digest : String
  pub actor_id : String
  pub permission : String
  pub action : String
  pub now : ℕ
  pub new_id : String

unfoldable pub find_available_node : Server → Exec Node
unfolding lookup
find_available_node server m = elim (lookup server.node_id m.nodes) [
  | none ↦ (err (problem "NODE_OFFLINE" true), m)
  | some node ↦
      if str_eq node.condition "available"
      then (ok node, m)
      else (err (problem "NODE_OFFLINE" true), m)
]

module _ (r : ReconcileRequest) where
  unfoldable pub reconcile_operation : Server → Node → Operation
  unfolding new_queued_operation
  reconcile_operation server node =
      new_queued_operation r.new_id r.server_id node.id "reconcile" (server.generation + 1) r.key
        r.now

  -- The changes after the mutation.
  unfoldable pub accept_reconcile : User → Server → Node → Memory → Memory
  unfolding reconcile_operation put_operation remember record_audit insert
  accept_reconcile actor server node m =
      let o = reconcile_operation server node in
      let m' = remember r.scope o.id r.digest (put_operation o m) in
      record_audit actor.display_name r.action server.name "accepted" o.id (record m' {
        servers =
            insert r.server_id
              (record server {
                generation = server.generation + 1;
                node_condition = node.condition;
                updated_at = r.now;
              })
              m'.servers;
      })

  module _ (mutate : Server → Exec Server) where
    unfoldable pub reconcile_idle : User → Server → Node → Exec Operation
    reconcile_idle actor server node = do
      require (str_eq server.lifecycle_state "ready") (problem "OPERATION_IN_PROGRESS" true)
      server' ← mutate server
      modify (accept_reconcile actor server' node)
      pure (reconcile_operation server' node)

    unfoldable pub reconcile_new : User → Exec Operation
    reconcile_new actor = do
      server ← find_server r.server_id
      node ← find_available_node server
      require (contains "server.reconcile/v1" node.capabilities)
          (problem "CAPABILITY_UNSUPPORTED" false)
      require (server.generation == r.expected_generation) (problem "PRECONDITION_FAILED" false)
      require_idle r.server_id
      reconcile_idle actor server node

    unfoldable pub request_reconcile : Exec Operation
    request_reconcile = do
      lift (validate_idempotency_key r.key)
      actor ← authorize r.actor_id r.server_id r.permission
      modify (reconcile_node_liveness r.now)
      existing ← replay r.scope r.digest
      elim existing [ some o ↦ pure o | none ↦ reconcile_new actor ]

-- A call on an allocation: the arguments, the identifiers that are new, and the digest.
pub record AllocationRequest : Type 0 where
  pub server_id : String
  pub expected_generation : ℕ
  pub key : String
  pub digest : String
  pub actor_id : String
  pub now : ℕ
  pub new_id : String

unfoldable pub reconcile_request : AllocationRequest → String → String → ReconcileRequest
reconcile_request r scope action = record {
  server_id = r.server_id;
  expected_generation = r.expected_generation;
  key = r.key;
  scope = scope;
  digest = r.digest;
  actor_id = r.actor_id;
  permission = "servers.network.write";
  action = action;
  now = r.now;
  new_id = r.new_id;
}

-- `serverID+"\\x00"+allocationID`.
unfoldable pub target_of : AllocationRequest → String → String
target_of r allocation_id = str_append r.server_id (str_append "\0" allocation_id)

module _ (r : AllocationRequest) where
  unfoldable pub create_allocation : String → CreateAllocationInput → Exec Operation
  unfolding request_reconcile
  create_allocation allocation_id input =
      request_reconcile
        (reconcile_request r
          (idempotency_scope "server:allocation:create" r.actor_id r.server_id r.key)
          "network.allocation.create")
        (create_mutation r.server_id r.now allocation_id input)

  unfoldable pub set_primary_allocation : String → Exec Operation
  unfolding request_reconcile
  set_primary_allocation given =
      let allocation_id = trim_space given in
      if is_empty allocation_id
      then raise (problem "VALIDATION_FAILED" false)
      else request_reconcile
          (reconcile_request r
            (idempotency_scope "server:allocation:primary" r.actor_id (target_of r allocation_id)
              r.key)
            "network.allocation.primary")
          (set_primary_mutation r.server_id r.now allocation_id)

  unfoldable pub delete_allocation : String → Exec Operation
  unfolding request_reconcile
  delete_allocation given =
      let allocation_id = trim_space given in
      if is_empty allocation_id
      then raise (problem "VALIDATION_FAILED" false)
      else request_reconcile
          (reconcile_request r
            (idempotency_scope "server:allocation:delete" r.actor_id (target_of r allocation_id)
              r.key)
            "network.allocation.delete")
          (delete_mutation r.server_id allocation_id)
