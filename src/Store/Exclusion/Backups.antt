-- ===== src/Store/Exclusion/Backups.antt =====
-- The calls on backups queue an operation only on a server that no operation is under way on.
use gu_gu_manager.Base.{◌+◌, ◌≡◌, refl, inl, String, Option, none, some, arith}
use gu_gu_manager.Store.Types.{Operation, User, Server, Memory}
use gu_gu_manager.Store.Exec.{Exec, ◌>>=◌, ◌>>◌}
use gu_gu_manager.Store.Idempotency.{first_active, active_exclusive_operation}
use gu_gu_manager.Store.Backups.Requests.{
  BackupRequest, queued, set_backup, require_idle, find_usable, accept_create, create_busy,
  create_idle, create_new, create_backup, accept_restore, restore_new, restore_backup,
  accept_delete, delete_new, delete_backup,
}
use gu_gu_manager.Store.Exclusion.Queue.{
  Still, Queues, QueuesIdle, QueuesAtMost, Still-pure, Still-lift, Still-gets, Still-require,
  Still-authorize, Still-replay, Still-find_server, Still-reconcile, Queues-bind, Queues-Still,
  Queues-option, Queues-active, QueuesIdle-accept, still_rules,
}

module _ {A : Type 0} (id server_id : String) where
  require_idle_cases :
      (o : Option Operation) (x : Exec A) (m : Memory)
      → first_active server_id m.operations ≡ o
      → QueuesIdle id server_id x
      → QueuesAtMost id server_id m.operations ((require_idle server_id >> x) m).1.operations
  unfolding ◌>>=◌ require_idle active_exclusive_operation
  require_idle_cases none x m e q = grind (arith, q.at m e)
  require_idle_cases (some a) x m e q = rw (e, require_idle) (inl refl)

  pub Queues-require_idle :
      (x : Exec A) → QueuesIdle id server_id x → Queues id server_id (require_idle server_id >> x)
  Queues-require_idle x q = record {
    at = λ m. require_idle_cases (first_active server_id m.operations) x m refl q;
  }

module _ (r : BackupRequest) where
  pub find_usable-Still : Still (find_usable r)
  unfolding find_usable
  find_usable-Still = record { at = λ m. ground arith }

  create_busy-Still : (active : Operation) → Still (create_busy r active)
  unfolding create_busy
  create_busy-Still active = search still_rules

  create_idle-QueuesIdle :
      (actor : User) (server : Server)
      → QueuesIdle r.new_id r.server_id (create_idle r actor server)
  unfolding create_idle
  create_idle-QueuesIdle actor server =
      QueuesIdle-accept r.new_id r.server_id (accept_create r actor server) _
        (queued r "backup" server server.generation) (unfold queued in refl)
        (unfold accept_create in λ m. refl)

  create_new-Queues : (actor : User) → Queues r.new_id r.server_id (create_new r actor)
  unfolding create_new
  create_new-Queues actor = Queues-bind _ _ _ _ (Still-find_server _) λ server.
      Queues-bind _ _ _ _ (Still-gets _) λ condition. Queues-bind _ _ _ _ (Still-require _ _) λ _.
        Queues-bind _ _ _ _ (Still-require _ _)
          λ _. Queues-active _ _ _ _ create_busy-Still (create_idle-QueuesIdle actor server)

  pub create_backup-Queues : Queues r.new_id r.server_id (create_backup r)
  unfolding create_backup
  create_backup-Queues = Queues-bind _ _ _ _ (Still-lift _) λ _.
      Queues-bind _ _ _ _ (Still-authorize _ _ _) λ actor.
        Queues-bind _ _ _ _ (Still-reconcile _) λ _.
          Queues-bind _ _ _ _ (Still-replay _ _) λ existing.
            Queues-option _ _ existing _ _ (λ o. Queues-Still _ _ _ (Still-pure o))
              (create_new-Queues actor)

  restore_new-Queues : (actor : User) → Queues r.new_id r.server_id (restore_new r actor)
  unfolding restore_new
  restore_new-Queues actor = Queues-bind _ _ _ _ (Still-find_server _) λ server.
      Queues-bind _ _ _ _ (Still-gets _) λ condition. Queues-bind _ _ _ _ (Still-require _ _) λ _.
        Queues-bind _ _ _ _ find_usable-Still λ backup. Queues-bind _ _ _ _ (Still-require _ _) λ _.
          Queues-bind _ _ _ _ (Still-require _ _) λ _. Queues-bind _ _ _ _ (Still-gets _) λ valid.
            Queues-bind _ _ _ _ (Still-require _ _) λ _. Queues-require_idle _ _ _ (
              QueuesIdle-accept r.new_id r.server_id (accept_restore r actor server backup) _
                (queued r "restore" server (server.generation + 1)) (unfold queued in refl)
                (unfold accept_restore set_backup in λ m. refl))

  pub restore_backup-Queues : Queues r.new_id r.server_id (restore_backup r)
  unfolding restore_backup
  restore_backup-Queues = Queues-bind _ _ _ _ (Still-lift _) λ _.
      Queues-bind _ _ _ _ (Still-authorize _ _ _) λ actor.
        Queues-bind _ _ _ _ (Still-reconcile _) λ _.
          Queues-bind _ _ _ _ (Still-replay _ _) λ existing.
            Queues-option _ _ existing _ _ (λ o. Queues-Still _ _ _ (Still-pure o))
              (restore_new-Queues actor)

  delete_new-Queues : (actor : User) → Queues r.new_id r.server_id (delete_new r actor)
  unfolding delete_new
  delete_new-Queues actor = Queues-bind _ _ _ _ (Still-find_server _) λ server.
      Queues-bind _ _ _ _ find_usable-Still λ backup. Queues-bind _ _ _ _ (Still-require _ _) λ _.
        Queues-require_idle _ _ _ (
          QueuesIdle-accept r.new_id r.server_id (accept_delete r actor server backup) _
            (queued r "backup-delete" server server.generation) (unfold queued in refl)
            (unfold accept_delete set_backup in λ m. refl))

  pub delete_backup-Queues : Queues r.new_id r.server_id (delete_backup r)
  unfolding delete_backup
  delete_backup-Queues = Queues-bind _ _ _ _ (Still-lift _) λ _.
      Queues-bind _ _ _ _ (Still-authorize _ _ _) λ actor.
        Queues-bind _ _ _ _ (Still-replay _ _) λ existing.
          Queues-option _ _ existing _ _ (λ o. Queues-Still _ _ _ (Still-pure o))
            (delete_new-Queues actor)
