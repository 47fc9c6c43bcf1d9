-- ===== src/Store/Replay/Backups.antt =====
-- What a request on a backup that is accepted leaves behind.
use gu_gu_manager.Base.{◌+◌, ◌≡◌, String, some, arith}
use gu_gu_manager.Base.Maps.{lookup, lookup-insert_same}
use gu_gu_manager.Store.Types.{Operation, User, Server, Backup, Memory}
use gu_gu_manager.Store.Exec.{ok, Exec}
use gu_gu_manager.Store.Idempotency.{remember, put_operation}
use gu_gu_manager.Store.Backups.Requests.{
  BackupRequest, create_scope, restore_scope, delete_scope, queued, set_backup, require_idle,
  accept_create, create_busy, create_idle, create_new, create_backup, accept_restore, restore_new,
  restore_backup, accept_delete, delete_new, delete_backup,
}
use gu_gu_manager.Store.Exclusion.Queue.{
  Still, Still-lift, Still-gets, Still-require, Still-authorize, Still-reconcile, Still-find_server,
}
use gu_gu_manager.Store.Exclusion.Backups.{find_usable-Still}
use gu_gu_manager.Store.Replay.Ensures.{Ensures, Ensures-raise, Ensures-if}
use gu_gu_manager.Store.Replay.Records.{
  IsKeyed, Recorded, record_of, keeps, remember-Ensures, replayed-Ensures, active_then-Ensures,
  accept-Ensures,
}

require_idle-Still : (server : String) → Still (require_idle server)
unfolding require_idle
require_idle-Still server = record { at = λ m. ground arith }

-- What is known at first is forgotten.
forget :
    {A : Type 0} (x : Exec A) (Q : A → Memory → Type 0)
    → Ensures (λ m. Unit {0}) x Q
    → Ensures (λ m. IsKeyed m.operations) x Q
forget x Q h = record { at = λ m k a e. h.at m tt a e }

module _ (r : BackupRequest) where
  accept_create-Recorded :
      (actor : User) (server : Server) (m : Memory)
      → Recorded
          (create_scope r)
          r.digest
          (queued r "backup" server server.generation)
          (accept_create r actor server m)
  unfolding accept_create remember put_operation
  accept_create-Recorded actor server m =
      let o = queued r "backup" server server.generation in
      record {
        known = lookup-insert_same (create_scope r) (record_of r.digest o) m.idempotency;
        stored = lookup-insert_same o.id o m.operations;
      }

  create_busy-Ensures :
      (o : Operation)
      → Ensures
          (λ m. lookup o.id m.operations ≡ some o)
          (create_busy r o)
          (Recorded (create_scope r) r.digest)
  unfolding create_busy
  create_busy-Ensures o =
      Ensures-if _ _ _ _ _ (remember-Ensures (create_scope r) r.digest o) (Ensures-raise _ _ _)

  create_idle-Ensures :
      (actor : User) (server : Server)
      → Ensures (λ m. Unit {0}) (create_idle r actor server) (Recorded (create_scope r) r.digest)
  unfolding create_idle
  create_idle-Ensures actor server =
      accept-Ensures _ _ (accept_create r actor server) _ (accept_create-Recorded actor server)

  create_new-Ensures :
      (actor : User)
      → Ensures
          (λ m. IsKeyed m.operations)
          (create_new r actor)
          (Recorded (create_scope r) r.digest)
  unfolding create_new
  create_new-Ensures actor = keeps _ _ _ (Still-find_server _) λ server.
      keeps _ _ _ (Still-gets _) λ condition. keeps _ _ _ (Still-require _ _) λ _.
        keeps _ _ _ (Still-require _ _) λ _.
          active_then-Ensures (create_scope r) r.digest r.server_id _ _ create_busy-Ensures
            (create_idle-Ensures actor server)

  create_backup-Ensures :
      Ensures (λ m. IsKeyed m.operations) (create_backup r) (Recorded (create_scope r) r.digest)
  unfolding create_backup
  create_backup-Ensures = keeps _ _ _ (Still-lift _) λ _.
      keeps _ _ _ (Still-authorize _ _ _) λ actor.
        keeps _ _ _ (Still-reconcile _)
          λ _. replayed-Ensures (create_scope r) r.digest _ (create_new-Ensures actor)

  accept_restore-Recorded :
      (actor : User) (server : Server) (b : Backup) (m : Memory)
      → Recorded
          (restore_scope r)
          r.digest
          (queued r "restore" server (server.generation + 1))
          (accept_restore r actor server b m)
  unfolding accept_restore remember put_operation set_backup
  accept_restore-Recorded actor server b m =
      let o = queued r "restore" server (server.generation + 1) in
      record {
        known = lookup-insert_same (restore_scope r) (record_of r.digest o) m.idempotency;
        stored = lookup-insert_same o.id o m.operations;
      }

  restore_new-Ensures :
      (actor : User)
      → Ensures
          (λ m. IsKeyed m.operations)
          (restore_new r actor)
          (Recorded (restore_scope r) r.digest)
  unfolding restore_new
  restore_new-Ensures actor = keeps _ _ _ (Still-find_server _) λ server.
      keeps _ _ _ (Still-gets _) λ condition. keeps _ _ _ (Still-require _ _) λ _.
        keeps _ _ _ (find_usable-Still r) λ backup. keeps _ _ _ (Still-require _ _) λ _.
          keeps _ _ _ (Still-require _ _) λ _. keeps _ _ _ (Still-gets _) λ valid.
            keeps _ _ _ (Still-require _ _) λ _. keeps _ _ _ (require_idle-Still _) λ _.
              forget _ _ (
                accept-Ensures _ _ (accept_restore r actor server backup) _
                  (accept_restore-Recorded actor server backup))

  restore_backup-Ensures :
      Ensures (λ m. IsKeyed m.operations) (restore_backup r) (Recorded (restore_scope r) r.digest)
  unfolding restore_backup
  restore_backup-Ensures = keeps _ _ _ (Still-lift _) λ _.
      keeps _ _ _ (Still-authorize _ _ _) λ actor.
        keeps _ _ _ (Still-reconcile _)
          λ _. replayed-Ensures (restore_scope r) r.digest _ (restore_new-Ensures actor)

  accept_delete-Recorded :
      (actor : User) (server : Server) (b : Backup) (m : Memory)
      → Recorded
          (delete_scope r)
          r.digest
          (queued r "backup-delete" server server.generation)
          (accept_delete r actor server b m)
  unfolding accept_delete remember put_operation set_backup
  accept_delete-Recorded actor server b m =
      let o = queued r "backup-delete" server server.generation in
      record {
        known = lookup-insert_same (delete_scope r) (record_of r.digest o) m.idempotency;
        stored = lookup-insert_same o.id o m.operations;
      }

  delete_new-Ensures :
      (actor : User)
      → Ensures
          (λ m. IsKeyed m.operations)
          (delete_new r actor)
          (Recorded (delete_scope r) r.digest)
  unfolding delete_new
  delete_new-Ensures actor = keeps _ _ _ (Still-find_server _) λ server.
      keeps _ _ _ (find_usable-Still r) λ backup. keeps _ _ _ (Still-require _ _) λ _.
        keeps _ _ _ (require_idle-Still _) λ _. forget _ _ (
          accept-Ensures _ _ (accept_delete r actor server backup) _
            (accept_delete-Recorded actor server backup))

  delete_backup-Ensures :
      Ensures (λ m. IsKeyed m.operations) (delete_backup r) (Recorded (delete_scope r) r.digest)
  unfolding delete_backup
  delete_backup-Ensures = keeps _ _ _ (Still-lift _) λ _.
      keeps _ _ _ (Still-authorize _ _ _)
        λ actor. replayed-Ensures (delete_scope r) r.digest _ (delete_new-Ensures actor)

-- Where each operation stands under its own identifier, a request to create a backup that succeeds
-- leaves the answered operation stored, and its key recorded with it and with the digest of the
-- request.
pub create_backup-Recorded :
    (r : BackupRequest) (m : Memory) (o : Operation)
    → IsKeyed m.operations
    → (create_backup r m).0 ≡ ok o
    → Recorded (create_scope r) r.digest o (create_backup r m).1
create_backup-Recorded r m o k e = (create_backup-Ensures r).at m k o e

-- Where each operation stands under its own identifier, a request to restore a backup that succeeds
-- leaves the answered operation stored, and its key recorded with it and with the digest of the
-- request.
pub restore_backup-Recorded :
    (r : BackupRequest) (m : Memory) (o : Operation)
    → IsKeyed m.operations
    → (restore_backup r m).0 ≡ ok o
    → Recorded (restore_scope r) r.digest o (restore_backup r m).1
restore_backup-Recorded r m o k e = (restore_backup-Ensures r).at m k o e

-- Where each operation stands under its own identifier, a request to delete a backup that succeeds
-- leaves the answered operation stored, and its key recorded with it and with the digest of the
-- request.
pub delete_backup-Recorded :
    (r : BackupRequest) (m : Memory) (o : Operation)
    → IsKeyed m.operations
    → (delete_backup r m).0 ≡ ok o
    → Recorded (delete_scope r) r.digest o (delete_backup r m).1
delete_backup-Recorded r m o k e = (delete_backup-Ensures r).at m k o e
