-- ===== src/Store/Exclusion/Runs.antt =====
-- The store under any interleaving of the calls and of the sections of the workers: each holds the
-- lock of `Memory` and is one step.
use gu_gu_manager.Base.{ℕ, ◌≡◌, sym, subst, inl, inr, String, none, List, [], ◌∷◌, arith}
use gu_gu_manager.Base.Maps.{Assoc, lookup}
use gu_gu_manager.Store.Types.{Operation, Server, StartupVariable, Memory}
use gu_gu_manager.Store.Exec.{Result}
use gu_gu_manager.Store.Idempotency.{first_active}
use gu_gu_manager.Store.Liveness.{reconcile_node_liveness, heartbeat}
use gu_gu_manager.Store.Power.{PowerRequest, request_power}
use gu_gu_manager.Store.Finish.{
  begin_operation, progress_power, finish_provision, finish_power, finish_reconcile,
}
use gu_gu_manager.Store.Backups.Requests.{
  BackupRequest, create_backup, restore_backup, delete_backup,
}
use gu_gu_manager.Store.Backups.Workers.{finish_backup, finish_restore_backup, finish_delete_backup}
use gu_gu_manager.Store.Exclusion.Operations.{IsExclusive, queue-IsExclusive}
use gu_gu_manager.Store.Exclusion.Queue.{
  QueuesAtMost, request_power-Queues, heartbeat-operations, reconcile_node_liveness-operations,
}
use gu_gu_manager.Store.Exclusion.Backups.{
  create_backup-Queues, restore_backup-Queues, delete_backup-Queues,
}
use gu_gu_manager.Store.Allocations.Mutations.{CreateAllocationInput}
use gu_gu_manager.Store.Allocations.Requests.{
  AllocationRequest, create_allocation, set_primary_allocation, delete_allocation,
}
use gu_gu_manager.Store.Exclusion.Allocations.{
  create_allocation-Queues, set_primary_allocation-Queues, delete_allocation-Queues,
}
use gu_gu_manager.Store.Exclusion.Ends.{
  begin_operation-IsExclusive, progress_power-IsExclusive, finish_provision-IsExclusive,
  finish_power-IsExclusive, finish_reconcile-IsExclusive,
}
use gu_gu_manager.Store.Exclusion.Archives.{
  finish_backup-IsExclusive, finish_restore_backup-IsExclusive, finish_delete_backup-IsExclusive,
}

-- A call on the store, or a section of a worker, with its arguments.
pub data Step : Type 0 where
  power : PowerRequest → Step
  backup : BackupRequest → Step
  restore : BackupRequest → Step
  delete : BackupRequest → Step
  allocate : AllocationRequest → String → CreateAllocationInput → Step
  make_primary : AllocationRequest → String → Step
  release : AllocationRequest → String → Step
  beat : (name version : String) (now : ℕ) → Step
  look : (now : ℕ) → Step
  begin : (id : String) (now : ℕ) → Step
  progress : (id : String) (now : ℕ) → Step
  provisioned : (id server_id : String) (now : ℕ) → Step
  powered : (id server_id action : String) (now : ℕ) → Step
  reconciled : (id server_id actor action : String) (now : ℕ) → Step
  backed_up : (id server_id actor : String) (now : ℕ) → Step
  restored : (id server_id backup_id actor : String) (now : ℕ) → Step
  deleted : (id server_id backup_id actor : String) (now : ℕ) → Step

module _ (template : Memory → Server → Result (List StartupVariable))
    (checksum_of : String → Server → ℕ → String) (manifest_of : String → String) where
  abbrev pub perform : Step → Memory → Memory
  perform (power r) m = (request_power template r m).1
  perform (backup r) m = (create_backup r m).1
  perform (restore r) m = (restore_backup r m).1
  perform (delete r) m = (delete_backup r m).1
  perform (allocate r id input) m = (create_allocation r id input m).1
  perform (make_primary r id) m = (set_primary_allocation r id m).1
  perform (release r id) m = (delete_allocation r id m).1
  perform (beat name version now) m = (heartbeat name version now m).1
  perform (look now) m = reconcile_node_liveness now m
  perform (begin id now) m = (begin_operation id now m).0
  perform (progress id now) m = progress_power id now m
  perform (provisioned id server_id now) m = finish_provision id server_id now m
  perform (powered id server_id action now) m = finish_power id server_id action now m
  perform (reconciled id server_id actor action now) m =
      finish_reconcile id server_id actor action now m
  perform (backed_up id server_id actor now) m =
      finish_backup checksum_of manifest_of id server_id actor now m
  perform (restored id server_id backup_id actor now) m =
      finish_restore_backup id server_id backup_id actor now m
  perform (deleted id server_id backup_id actor now) m =
      finish_delete_backup id server_id backup_id actor now m

  abbrev pub run : List Step → Memory → Memory
  run [] m = m
  run (step ∷ steps) m = run steps (perform step m)

queued-IsExclusive :
    (id server_id : String) (ops ops' : Assoc Operation)
    → QueuesAtMost id server_id ops ops'
    → IsExclusive ops
    → IsExclusive ops'
queued-IsExclusive id server_id ops ops' (inl same) x = subst IsExclusive (sym same) x
queued-IsExclusive id server_id ops ops' (inr (o, there, free, more)) x =
    subst IsExclusive (sym more)
      (queue-IsExclusive id o ops (subst (λ s. first_active s ops ≡ none) (sym there) free) x)

module _ (template : Memory → Server → Result (List StartupVariable))
    (checksum_of : String → Server → ℕ → String) (manifest_of : String → String) where
  perform-IsExclusive :
      (step : Step) (m : Memory)
      → IsExclusive m.operations
      → IsExclusive (perform template checksum_of manifest_of step m).operations
  perform-IsExclusive (power r) m x =
      queued-IsExclusive r.new_id r.server_id m.operations _
        ((request_power-Queues template r).at m) x
  perform-IsExclusive (backup r) m x =
      queued-IsExclusive r.new_id r.server_id m.operations _ ((create_backup-Queues r).at m) x
  perform-IsExclusive (restore r) m x =
      queued-IsExclusive r.new_id r.server_id m.operations _ ((restore_backup-Queues r).at m) x
  perform-IsExclusive (delete r) m x =
      queued-IsExclusive r.new_id r.server_id m.operations _ ((delete_backup-Queues r).at m) x
  perform-IsExclusive (allocate r id input) m x =
      queued-IsExclusive r.new_id r.server_id m.operations _
        ((create_allocation-Queues r id input).at m) x
  perform-IsExclusive (make_primary r id) m x =
      queued-IsExclusive r.new_id r.server_id m.operations _
        ((set_primary_allocation-Queues r id).at m) x
  perform-IsExclusive (release r id) m x =
      queued-IsExclusive r.new_id r.server_id m.operations _ ((delete_allocation-Queues r id).at m)
        x
  perform-IsExclusive (beat name version now) m x =
      subst IsExclusive (sym (heartbeat-operations name version now m)) x
  perform-IsExclusive (look now) m x =
      subst IsExclusive (sym (reconcile_node_liveness-operations now m)) x
  perform-IsExclusive (begin id now) m x = begin_operation-IsExclusive id now m x
  perform-IsExclusive (progress id now) m x = progress_power-IsExclusive id now m x
  perform-IsExclusive (provisioned id server_id now) m x =
      finish_provision-IsExclusive id server_id now m x
  perform-IsExclusive (powered id server_id action now) m x =
      finish_power-IsExclusive id server_id now m x action
  perform-IsExclusive (reconciled id server_id actor action now) m x =
      finish_reconcile-IsExclusive id server_id now m x actor action
  perform-IsExclusive (backed_up id server_id actor now) m x =
      finish_backup-IsExclusive checksum_of manifest_of id server_id now actor m x
  perform-IsExclusive (restored id server_id backup_id actor now) m x =
      finish_restore_backup-IsExclusive id server_id now m x backup_id actor
  perform-IsExclusive (deleted id server_id backup_id actor now) m x =
      finish_delete_backup-IsExclusive id server_id now m x backup_id actor

  run_keeps_IsExclusive :
      (steps : List Step) (m : Memory)
      → IsExclusive m.operations
      → IsExclusive (run template checksum_of manifest_of steps m).operations
  run_keeps_IsExclusive [] m x = x
  run_keeps_IsExclusive (step ∷ steps) m x =
      run_keeps_IsExclusive steps _ (perform-IsExclusive step m x)

no_operations : (ops : Assoc Operation) → ops ≡ [] → IsExclusive ops
unfolding lookup
no_operations ops e = record { same = λ server i j a b p q s t. absurd (ground arith) }

-- From a store without operations, after any calls and worker sections in any order, two operations
-- that are exclusive and under way on one server are the same operation.
pub run-IsExclusive :
    (template : Memory → Server → Result (List StartupVariable))
    (checksum_of : String → Server → ℕ → String) (manifest_of : String → String) (steps : List Step)
    (m : Memory)
    → m.operations ≡ []
    → IsExclusive (run template checksum_of manifest_of steps m).operations
run-IsExclusive template checksum_of manifest_of steps m e =
    run_keeps_IsExclusive template checksum_of manifest_of steps m (no_operations m.operations e)
