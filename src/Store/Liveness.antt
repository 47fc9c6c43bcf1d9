-- ===== src/Store/Liveness.antt =====
-- internal/store/node_liveness.go, and `Heartbeat` of internal/store/operations.go.
use gu_gu_manager.Base.{
  ℕ, ◌+◌, String, Bool, false, not, ◌&&◌, ◌||◌, Option, none, some, [], ◌∷◌, ltb, ◌==◌, str_eq,
  if◌then◌else◌,
}
use gu_gu_manager.Base.Maps.{Assoc, lookup, insert}
use gu_gu_manager.Store.Types.{Server, Node, Memory}
use gu_gu_manager.Store.Exec.{Result, ok, err, problem}

abbrev pub node_offline_after : ℕ
node_offline_after = 30000000000

-- The loop over the servers of a node.
unfoldable pub mark_servers : String → String → Assoc Server → Assoc Server
mark_servers node_id condition [] = []
mark_servers node_id condition ((id, server) ∷ rest) =
    (
      id,
      if str_eq server.node_id node_id
          then record server { node_condition = condition }
          else server,
    )
    ∷ mark_servers node_id condition rest

-- The two tests that leave a node as it is.
unfoldable pub is_kept : ℕ → Node → Bool
is_kept now node =
    str_eq node.condition "maintenance"
    || (not (node.last_heartbeat_at == 0) && ltb now (node.last_heartbeat_at + node_offline_after))

unfoldable pub reconcile_node : ℕ → String → Node → Memory → Memory
unfolding is_kept mark_servers insert
reconcile_node now node_id node m = if is_kept now node then m else record m {
  nodes = insert node_id (record node { condition = "offline" }) m.nodes;
  servers = mark_servers node_id "offline" m.servers;
}

unfoldable pub reconcile_nodes : ℕ → Assoc Node → Memory → Memory
unfolding reconcile_node
reconcile_nodes now [] m = m
reconcile_nodes now ((node_id, node) ∷ rest) m =
    reconcile_nodes now rest (reconcile_node now node_id node m)

unfoldable pub reconcile_node_liveness : ℕ → Memory → Memory
unfolding reconcile_nodes
reconcile_node_liveness now m = reconcile_nodes now m.nodes m

-- The first node of that name that the loop meets.
unfoldable pub find_node : String → Assoc Node → Option (String × Node)
find_node name [] = none
find_node name ((id, node) ∷ rest) =
    if str_eq node.name name then some (id, node) else find_node name rest

unfoldable pub heartbeat_node : String → ℕ → String × Node → Memory → Memory
unfolding mark_servers insert
heartbeat_node version now (node_id, node) m = record m {
  nodes =
      insert node_id
        (record node { condition = "available"; version = version; last_heartbeat_at = now })
        m.nodes;
  servers = mark_servers node_id "available" m.servers;
}

-- A node is revoked if the map holds `true` for it.
unfoldable pub is_revoked : Memory → String → Bool
unfolding lookup
is_revoked m node_id = elim (lookup node_id m.revoked_nodes) [ none ↦ false | some b ↦ b ]

unfoldable pub heartbeat : String → String → ℕ → Memory → Result (Unit {0}) × Memory
unfolding find_node heartbeat_node is_revoked
heartbeat name version now m = elim (find_node name m.nodes) [
  | none ↦ (err (problem "NOT_FOUND" false), m)
  | some (id, node) ↦
      if is_revoked m id
      then (err (problem "NOT_FOUND" false), m)
      else (ok tt, heartbeat_node version now (id, node) m)
]
