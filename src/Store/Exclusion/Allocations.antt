-- ===== src/Store/Exclusion/Allocations.antt =====
-- The calls on allocations queue an operation only on a server that no operation is under way on.
use gu_gu_manager.Base.{ℕ, refl, String, Bool, true, false, arith, trim_space, if◌then◌else◌}
use gu_gu_manager.Store.Types.{Operation, User, Server, Node}
use gu_gu_manager.Store.Exec.{Exec}
use gu_gu_manager.Store.Allocations.Mutations.{
  CreateAllocationInput, add_allocation, create_mutation, set_primary_mutation, delete_mutation,
}
use gu_gu_manager.Store.Allocations.Requests.{
  ReconcileRequest, AllocationRequest, find_available_node, reconcile_operation, accept_reconcile,
  reconcile_idle, reconcile_new, request_reconcile, reconcile_request, create_allocation,
  set_primary_allocation, delete_allocation,
}
use gu_gu_manager.Store.Exclusion.Queue.{
  Still, Queues, QueuesIdle, Still-pure, Still-raise, Still-lift, Still-require, Still-authorize,
  Still-replay, Still-find_server, Still-reconcile, Queues-bind, QueuesIdle-bind, Queues-Still,
  Queues-option, QueuesIdle-accept,
}
use gu_gu_manager.Store.Exclusion.Backups.{Queues-require_idle}

find_available_node-Still : (server : Server) → Still (find_available_node server)
unfolding find_available_node
find_available_node-Still server = record { at = λ m. ground arith }

create_mutation-Still :
    (server_id : String) (now : ℕ) (new_id : String) (input : CreateAllocationInput)
    (server : Server)
    → Still (create_mutation server_id now new_id input server)
unfolding create_mutation add_allocation
create_mutation-Still server_id now new_id input server = record { at = λ m. ground arith }

set_primary_mutation-Still :
    (server_id : String) (now : ℕ) (id : String) (server : Server)
    → Still (set_primary_mutation server_id now id server)
unfolding set_primary_mutation
set_primary_mutation-Still server_id now id server = record { at = λ m. ground arith }

delete_mutation-Still :
    (server_id id : String) (server : Server) → Still (delete_mutation server_id id server)
unfolding delete_mutation
delete_mutation-Still server_id id server = record { at = λ m. ground arith }

module _ (r : ReconcileRequest) (mutate : Server → Exec Server)
    (still : (s : Server) → Still (mutate s)) where
  reconcile_idle-QueuesIdle :
      (actor : User) (server : Server) (node : Node)
      → QueuesIdle r.new_id r.server_id (reconcile_idle r mutate actor server node)
  unfolding reconcile_idle
  reconcile_idle-QueuesIdle actor server node = QueuesIdle-bind _ _ _ _ (Still-require _ _) λ _.
      QueuesIdle-bind _ _ _ _ (still server) λ server'.
        QueuesIdle-accept r.new_id r.server_id (accept_reconcile r actor server' node) _
          (reconcile_operation r server' node) (unfold reconcile_operation in refl)
          (unfold accept_reconcile in λ m. refl)

  reconcile_new-Queues : (actor : User) → Queues r.new_id r.server_id (reconcile_new r mutate actor)
  unfolding reconcile_new
  reconcile_new-Queues actor = Queues-bind _ _ _ _ (Still-find_server _) λ server.
      Queues-bind _ _ _ _ (find_available_node-Still server) λ node.
        Queues-bind _ _ _ _ (Still-require _ _) λ _.
          Queues-bind _ _ _ _ (Still-require _ _)
            λ _. Queues-require_idle _ _ _ (reconcile_idle-QueuesIdle actor server node)

  request_reconcile-Queues : Queues r.new_id r.server_id (request_reconcile r mutate)
  unfolding request_reconcile
  request_reconcile-Queues = Queues-bind _ _ _ _ (Still-lift _) λ _.
      Queues-bind _ _ _ _ (Still-authorize _ _ _) λ actor.
        Queues-bind _ _ _ _ (Still-reconcile _) λ _.
          Queues-bind _ _ _ _ (Still-replay _ _) λ existing.
            Queues-option _ _ existing _ _ (λ o. Queues-Still _ _ _ (Still-pure o))
              (reconcile_new-Queues actor)

Queues-if :
    (id server_id : String) (b : Bool) (x y : Exec Operation)
    → Queues id server_id x
    → Queues id server_id y
    → Queues id server_id (if b then x else y)
Queues-if id server_id true x y p q = p
Queues-if id server_id false x y p q = q

module _ (r : AllocationRequest) where
  pub create_allocation-Queues :
      (allocation_id : String) (input : CreateAllocationInput)
      → Queues r.new_id r.server_id (create_allocation r allocation_id input)
  unfolding create_allocation reconcile_request
  create_allocation-Queues allocation_id input =
      request_reconcile-Queues _ _ (create_mutation-Still r.server_id r.now allocation_id input)

  pub set_primary_allocation-Queues :
      (given : String) → Queues r.new_id r.server_id (set_primary_allocation r given)
  unfolding set_primary_allocation reconcile_request
  set_primary_allocation-Queues given = Queues-if _ _ _ _ _ (Queues-Still _ _ _ (Still-raise _)) (
      request_reconcile-Queues _ _
        (set_primary_mutation-Still r.server_id r.now (trim_space given)))

  pub delete_allocation-Queues :
      (given : String) → Queues r.new_id r.server_id (delete_allocation r given)
  unfolding delete_allocation reconcile_request
  delete_allocation-Queues given =
      Queues-if _ _ _ _ _ (Queues-Still _ _ _ (Still-raise _))
        (request_reconcile-Queues _ _ (delete_mutation-Still r.server_id (trim_space given)))
