-- ===== src/Store/Allocations/Safety.antt =====
-- No two allocations listen on one endpoint of a node, after any request on allocations.
use gu_gu_manager.Base.{◌≡◌, String, none, trim_space, is_empty}
use gu_gu_manager.Base.Maps.{Assoc, lookup}
use gu_gu_manager.Store.Types.{Allocation, Server, User, Node, Memory}
use gu_gu_manager.Store.Exec.{Exec}
use gu_gu_manager.Store.Allocations.Mutations.{CreateAllocationInput}
use gu_gu_manager.Store.Allocations.Requests.{
  ReconcileRequest, AllocationRequest, accept_reconcile, reconcile_idle, reconcile_new,
  request_reconcile, reconcile_request, create_allocation, set_primary_allocation,
  delete_allocation,
}
use gu_gu_manager.Store.Allocations.Endpoints.{IsDisjoint}
use gu_gu_manager.Store.Allocations.Listening.{
  create_mutation-IsDisjoint, set_primary_mutation-IsDisjoint, delete_mutation-IsDisjoint,
}
use gu_gu_manager.Store.Allocations.Network.{
  Careful, Quiet-pure, Quiet-raise, Quiet-lift, Quiet-Careful, Quiet-require, Quiet-authorize,
  Quiet-replay, Quiet-find_server, Quiet-find_available_node, Quiet-require_idle, Quiet-reconcile,
  Quiet-accept, Quiet-first, Quiet-last, Quiet-done, Careful-option, Careful-if,
}

module _ (P : Assoc Allocation → Type 0) (r : ReconcileRequest) (mutate : Server → Exec Server)
    (careful : (s : Server) → Careful P (mutate s)) where
  reconcile_idle-Careful :
      (actor : User) (server : Server) (node : Node)
      → Careful P (reconcile_idle r mutate actor server node)
  unfolding reconcile_idle
  reconcile_idle-Careful actor server node = Quiet-first P _ _ (Quiet-require _ _) λ _.
      Quiet-last P _ _ (careful server) λ server'.
        Quiet-done (accept_reconcile r actor server' node) _ (Quiet-accept r actor server' node)

  reconcile_new-Careful : (actor : User) → Careful P (reconcile_new r mutate actor)
  unfolding reconcile_new
  reconcile_new-Careful actor = Quiet-first P _ _ (Quiet-find_server _) λ server.
      Quiet-first P _ _ (Quiet-find_available_node server) λ node.
        Quiet-first P _ _ (Quiet-require _ _) λ _. Quiet-first P _ _ (Quiet-require _ _) λ _.
          Quiet-first P _ _ (Quiet-require_idle _) λ _. reconcile_idle-Careful actor server node

  request_reconcile-Careful : Careful P (request_reconcile r mutate)
  unfolding request_reconcile
  request_reconcile-Careful = Quiet-first P _ _ (Quiet-lift _) λ _.
      Quiet-first P _ _ (Quiet-authorize _ _ _) λ actor. Quiet-first P _ _ (Quiet-reconcile _) λ _.
        Quiet-first P _ _ (Quiet-replay _ _) λ existing.
          Careful-option P existing _ _ (λ o. Quiet-Careful P _ (Quiet-pure o))
            (reconcile_new-Careful actor)

-- A request on an allocation.
pub data Call : Type 0 where
  creates : AllocationRequest → String → CreateAllocationInput → Call
  prefers : AllocationRequest → String → Call
  deletes : AllocationRequest → String → Call

abbrev pub call : Call → Memory → Memory
call (creates r id input) m = (create_allocation r id input m).1
call (prefers r id) m = (set_primary_allocation r id m).1
call (deletes r id) m = (delete_allocation r id m).1

-- The identifier of a new allocation is new.
abbrev pub IsFresh : Call → Assoc Allocation → Type 0
IsFresh (creates r id input) m = lookup id m ≡ none
IsFresh (prefers r id) m = Unit
IsFresh (deletes r id) m = Unit

-- Where no two allocations have one endpoint of a node and the order of each server names its own
-- allocations, both are still so after any request to create, prefer or delete an allocation,
-- accepted or refused, if the identifier of a new one is new.
pub call-IsDisjoint :
    (c : Call) (m : Memory) → IsFresh c m.allocations → IsDisjoint m → IsDisjoint (call c m)
unfolding create_allocation set_primary_allocation delete_allocation reconcile_request
call-IsDisjoint (creates r id input) m fresh v =
    (request_reconcile-Careful (λ m. lookup id m ≡ none) _ _
        (λ s. record {
          at = λ m f v. create_mutation-IsDisjoint r.server_id r.now m v id input s f;
        })).at
      m fresh v
call-IsDisjoint (prefers r id) m fresh v =
    (Careful-if (λ m. Unit {0}) (is_empty (trim_space id)) _ _ (Quiet-Careful _ _ (Quiet-raise _))
        (request_reconcile-Careful (λ m. Unit {0}) _ _
          (λ s. record {
            at = λ m f v. set_primary_mutation-IsDisjoint r.server_id r.now m v (trim_space id) s;
          }))).at
      m tt v
call-IsDisjoint (deletes r id) m fresh v =
    (Careful-if (λ m. Unit {0}) (is_empty (trim_space id)) _ _ (Quiet-Careful _ _ (Quiet-raise _))
        (request_reconcile-Careful (λ m. Unit {0}) _ _
          (λ s. record {
            at = λ m f v. delete_mutation-IsDisjoint r.server_id (trim_space id) s m v;
          }))).at
      m tt v
