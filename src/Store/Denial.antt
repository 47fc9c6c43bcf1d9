-- ===== src/Store/Denial.antt =====
-- A call of an actor that may not make it leaves the store as it was.
use gu_gu_manager.Base.{
  ◌≡◌, refl, String, Bool, true, false, List, if◌then◌else◌, trim_space, is_empty,
}
use gu_gu_manager.Store.Types.{Operation, User, Server, StartupVariable, Problem, Memory}
use gu_gu_manager.Store.Exec.{Result, ok, err, continue, Exec, raise, lift, ◌>>=◌, require}
use gu_gu_manager.Store.Access.{authorize_server}
use gu_gu_manager.Store.Idempotency.{validate_idempotency_key}
use gu_gu_manager.Store.Power.{PowerRequest, is_power_action, authorize, request_power}
use gu_gu_manager.Store.Backups.Requests.{
  BackupRequest, create_backup, restore_backup, delete_backup,
}
use gu_gu_manager.Store.Allocations.Mutations.{CreateAllocationInput}
use gu_gu_manager.Store.Allocations.Requests.{
  AllocationRequest, ReconcileRequest, request_reconcile, reconcile_request, create_allocation,
  set_primary_allocation, delete_allocation,
}

-- A call that a user makes on a server.
pub data Request : Type 0 where
  power : PowerRequest → Request
  backup restore delete : BackupRequest → Request
  allocate : AllocationRequest → String → CreateAllocationInput → Request
  prefer release : AllocationRequest → String → Request

abbrev pub actor_of : Request → String
actor_of (power r) = r.actor_id
actor_of (backup r) = r.actor_id
actor_of (restore r) = r.actor_id
actor_of (delete r) = r.actor_id
actor_of (allocate r id input) = r.actor_id
actor_of (prefer r id) = r.actor_id
actor_of (release r id) = r.actor_id

abbrev pub server_of : Request → String
server_of (power r) = r.server_id
server_of (backup r) = r.server_id
server_of (restore r) = r.server_id
server_of (delete r) = r.server_id
server_of (allocate r id input) = r.server_id
server_of (prefer r id) = r.server_id
server_of (release r id) = r.server_id

abbrev pub permission_of : Request → String
permission_of (power r) = "servers.power"
permission_of (backup r) = "servers.backups.create"
permission_of (restore r) = "servers.backups.restore"
permission_of (delete r) = "servers.backups.delete"
permission_of (allocate r id input) = "servers.network.write"
permission_of (prefer r id) = "servers.network.write"
permission_of (release r id) = "servers.network.write"

abbrev pub ask : (Memory → Server → Result (List StartupVariable)) → Request → Exec Operation
ask template (power r) = request_power template r
ask template (backup r) = create_backup r
ask template (restore r) = restore_backup r
ask template (delete r) = delete_backup r
ask template (allocate r id input) = create_allocation r id input
ask template (prefer r id) = set_primary_allocation r id
ask template (release r id) = delete_allocation r id

-- A refusal that changes nothing.
pub record IsRefusal (m : Memory) (answer : Result Operation × Memory) : Type 0 where
  pub reason : Problem
  pub unchanged : answer ≡ (err reason, m)

module _ {A : Type 0} (m : Memory) where
  after_check :
      (r : Result A) (f : A → Exec Operation)
      → ((a : A) → IsRefusal m (f a m))
      → IsRefusal m (continue r f m)
  after_check (ok a) f h = h a
  after_check (err p) f h = record { reason = p; unchanged = refl }

after_require :
    (b : Bool) (p : Problem) (m : Memory) (f : Unit {0} → Exec Operation)
    → IsRefusal m (f tt m)
    → IsRefusal m ((require b p >>= f) m)
unfolding ◌>>=◌ require
after_require true p m f h = h
after_require false p m f h = record { reason = p; unchanged = refl }

after_key :
    (key : String) (m : Memory) (f : Unit {0} → Exec Operation)
    → IsRefusal m (f tt m)
    → IsRefusal m ((lift (validate_idempotency_key key) >>= f) m)
unfolding ◌>>=◌ lift
after_key key m f h = after_check m (validate_idempotency_key key) f (λ _. h)

after_if :
    (b : Bool) (x y : Exec Operation) (m : Memory)
    → IsRefusal m (x m)
    → IsRefusal m (y m)
    → IsRefusal m ((if b then x else y) m)
after_if true x y m p q = p
after_if false x y m p q = q

raised : (p : Problem) (m : Memory) → IsRefusal m (raise p m)
unfolding raise
raised p m = record { reason = p; unchanged = refl }

module _ (m : Memory) (p : Problem) (actor server permission : String)
    (denied : authorize_server m actor server permission ≡ err p) where
  stopped : (f : User → Exec Operation) → IsRefusal m ((authorize actor server permission >>= f) m)
  unfolding ◌>>=◌ authorize
  stopped f = record { reason = p; unchanged = rw denied refl }

reconcile-IsRefusal :
    (r : ReconcileRequest) (mutate : Server → Exec Server) (m : Memory) (p : Problem)
    → authorize_server m r.actor_id r.server_id r.permission ≡ err p
    → IsRefusal m (request_reconcile r mutate m)
unfolding request_reconcile
reconcile-IsRefusal r mutate m p denied =
    after_key r.key m _ (stopped m p r.actor_id r.server_id r.permission denied _)

-- A power, backup or allocation request of an actor that is not authorized for it is refused, and
-- the store stays as it was.
pub ask-IsRefusal :
    (template : Memory → Server → Result (List StartupVariable)) (q : Request) (m : Memory)
    (p : Problem)
    → authorize_server m (actor_of q) (server_of q) (permission_of q) ≡ err p
    → IsRefusal m (ask template q m)
unfolding request_power create_backup restore_backup delete_backup create_allocation
    set_primary_allocation delete_allocation reconcile_request
ask-IsRefusal template (power r) m p denied = after_key r.key m _ (
    after_require (is_power_action r.action) _ m _
      (stopped m p r.actor_id r.server_id "servers.power" denied _))
ask-IsRefusal template (backup r) m p denied =
    after_key r.key m _ (stopped m p r.actor_id r.server_id "servers.backups.create" denied _)
ask-IsRefusal template (restore r) m p denied =
    after_key r.key m _ (stopped m p r.actor_id r.server_id "servers.backups.restore" denied _)
ask-IsRefusal template (delete r) m p denied =
    after_key r.key m _ (stopped m p r.actor_id r.server_id "servers.backups.delete" denied _)
ask-IsRefusal template (allocate r id input) m p denied = reconcile-IsRefusal _ _ m p denied
ask-IsRefusal template (prefer r id) m p denied =
    after_if (is_empty (trim_space id)) _ _ m (raised _ m) (reconcile-IsRefusal _ _ m p denied)
ask-IsRefusal template (release r id) m p denied =
    after_if (is_empty (trim_space id)) _ _ m (raised _ m) (reconcile-IsRefusal _ _ m p denied)
