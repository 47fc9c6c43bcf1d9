-- ===== src/Store/Power.antt =====
-- `RequestPower` of internal/store/operations.go. The startup template of a server, the digest of a
-- request and the new identifier are arguments: the first is computed from the game bundle, the
-- others by encoding/json, crypto/sha256 and internal/id.
use gu_gu_manager.Base.{
  ℕ, ◌+◌, String, Bool, true, false, not, ◌&&◌, ◌||◌, Option, none, some, List, [], ◌∷◌, str_eq,
  if◌then◌else◌, is_some,
}
use Prim.Native.String.{◌++◌ as str_append}
use gu_gu_manager.Base.Maps.{Assoc, lookup, insert}
use gu_gu_manager.Store.Types.{Operation, User, Server, StartupVariable, Memory}
use gu_gu_manager.Store.Exec.{
  Result, ok, err, Exec, pure, raise, lift, gets, modify, ◌>>=◌, ◌>>◌, require, problem, or_problem,
}
use gu_gu_manager.Store.Metadata.{new_queued_operation}
use gu_gu_manager.Store.Access.{authorize_server}
use gu_gu_manager.Store.Idempotency.{
  validate_idempotency_key, idempotency_scope, idempotent_operation, active_exclusive_operation,
  put_operation, remember,
}
use gu_gu_manager.Store.Liveness.{reconcile_node_liveness}

unfoldable pub authorize : String → String → String → Exec User
authorize actor_id server_id permission m = (authorize_server m actor_id server_id permission, m)

unfoldable pub replay : String → String → Exec (Option Operation)
replay scope digest m = (idempotent_operation scope digest m, m)

unfoldable pub find_server : String → Exec Server
find_server server_id m = (or_problem (lookup server_id m.servers) (problem "NOT_FOUND" false), m)

-- `m.nodes[server.NodeID].Condition`; the zero node has the empty condition.
unfoldable pub node_condition_of : Server → Memory → String
unfolding lookup
node_condition_of server m = elim (lookup server.node_id m.nodes) [
  | none ↦ ""
  | some node ↦ node.condition
]

unfoldable pub record_audit : String → String → String → String → String → Memory → Memory
record_audit actor action target result operation_id m = record m {
  audit =
      record {
        actor_name = actor;
        action = action;
        target_name = target;
        result = result;
        operation_id = operation_id;
      }
      ∷ m.audit;
}

unfoldable pub put_server : Server → Memory → Memory
put_server server m = record m { servers = insert server.id server m.servers }

unfoldable pub is_power_action : String → Bool
is_power_action action =
    str_eq action "start" || str_eq action "stop" || str_eq action "restart" || str_eq action "kill"

-- `missing` is not empty: a required variable has no value, or the null value.
unfoldable pub has_value : Assoc (Option String) → String → Bool
unfolding lookup
has_value values key = elim (lookup key values) [ none ↦ false | some v ↦ is_some v ]

unfoldable pub lacks_required : Assoc (Option String) → List StartupVariable → Bool
unfolding has_value
lacks_required values [] = false
lacks_required values (v ∷ vs) =
    (v.required && not (has_value values v.key)) || lacks_required values vs

unfoldable pub startup_values_of : String → Memory → Assoc (Option String)
unfolding lookup
startup_values_of server_id m = elim (lookup server_id m.startup_values) [
  | none ↦ []
  | some values ↦ values
]

-- The power states that an accepted action sets.
unfoldable pub apply_power : String → Server → Server
apply_power action server =
    if str_eq action "start"
    then record server { desired_power = "running"; observed_power = "starting" }
    else if str_eq action "stop" || str_eq action "kill"
    then record server { desired_power = "stopped"; observed_power = "stopping" }
    else record server { observed_power = "stopping" }

-- A call: its arguments, and what it reads from outside of the store.
pub record PowerRequest : Type 0 where
  pub server_id : String
  pub action : String
  pub key : String
  pub actor_id : String
  pub now : ℕ
  pub new_id : String
  pub digest : String

unfoldable pub scope_of : PowerRequest → String
unfolding idempotency_scope
scope_of r = idempotency_scope "server:power" r.actor_id r.server_id r.key

module _ (r : PowerRequest) where
  unfoldable pub power_operation : Server → Operation
  unfolding new_queued_operation
  power_operation server =
      new_queued_operation r.new_id r.server_id server.node_id r.action (server.generation + 1)
        r.key r.now

  -- The changes of an accepted request. The audit event is written in a section of its own.
  unfoldable pub accept_power : User → Server → String → Memory → Memory
  unfolding power_operation apply_power put_operation remember record_audit insert
  accept_power actor server condition m =
      let o = power_operation server in
      let m' = remember (scope_of r) o.id r.digest (put_operation o m) in
      record_audit actor.display_name (str_append "server.power." r.action) server.name "accepted"
        o.id
        (record m' {
          servers =
              insert r.server_id
                (record (apply_power r.action
                  (record server { generation = server.generation + 1 })) {
                    node_condition = condition;
                    updated_at = r.now;
                  })
                m'.servers;
        })

  -- The request on a server that is busy joins an operation of the same type.
  unfoldable pub request_busy : Operation → Exec Operation
  request_busy active =
      if str_eq active.type r.action
      then (do modify (remember (scope_of r) active.id r.digest); pure active)
      else raise (problem "OPERATION_IN_PROGRESS" true)

module _ (template : Memory → Server → Result (List StartupVariable)) (r : PowerRequest) where
  -- The test on the required startup variables.
  unfoldable pub check_startup : Server → Exec (Unit {0})
  unfolding lacks_required startup_values_of
  check_startup server m = elim (template m server) [
    | err p ↦ (err p, m)
    | ok variables ↦
        if lacks_required (startup_values_of r.server_id m) variables
        then (err (problem "VALIDATION_FAILED" false), m)
        else (ok tt, m)
  ]

  -- The request on a server that no exclusive operation holds.
  unfoldable pub request_idle : User → Server → String → Exec Operation
  request_idle actor server condition = do
    require (str_eq server.lifecycle_state "ready") (problem "OPERATION_IN_PROGRESS" true)
    (if str_eq r.action "start" || str_eq r.action "restart" then check_startup server else pure tt)
    modify (accept_power r actor server condition)
    pure (power_operation r server)

  unfoldable pub request_new : User → Exec Operation
  request_new actor = do
    server ← find_server r.server_id
    condition ← gets (node_condition_of server)
    require (str_eq condition "available") (problem "NODE_OFFLINE" true)
    active ← gets (active_exclusive_operation r.server_id)
    elim active [ some a ↦ request_busy r a | none ↦ request_idle actor server condition ]

  unfoldable pub request_power : Exec Operation
  request_power = do
    lift (validate_idempotency_key r.key)
    require (is_power_action r.action) (problem "VALIDATION_FAILED" false)
    actor ← authorize r.actor_id r.server_id "servers.power"
    modify (reconcile_node_liveness r.now)
    existing ← replay (scope_of r) r.digest
    elim existing [ some o ↦ pure o | none ↦ request_new actor ]
