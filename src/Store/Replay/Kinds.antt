-- ===== src/Store/Replay/Kinds.antt =====
-- The three requests on backups as one: what each leaves behind, and what it is answered when its
-- key is recorded.
use gu_gu_manager.Base.{◌≡◌, String}
use gu_gu_manager.Store.Types.{Operation, User, IdempotencyRecord, Memory}
use gu_gu_manager.Store.Exec.{ok, Exec}
use gu_gu_manager.Store.Access.{authorize_server}
use gu_gu_manager.Store.Idempotency.{validate_idempotency_key}
use gu_gu_manager.Store.Liveness.{reconcile_node_liveness}
use gu_gu_manager.Store.Backups.Requests.{
  BackupRequest, create_scope, restore_scope, delete_scope, create_backup, restore_backup,
  delete_backup,
}
use gu_gu_manager.Store.Replay.Answers.{
  IsRecorded, answer, create_backup_replayed, restore_backup_replayed, delete_backup_replayed,
}
use gu_gu_manager.Store.Replay.Records.{IsKeyed, Recorded}
use gu_gu_manager.Store.Replay.Backups.{
  create_backup-Recorded, restore_backup-Recorded, delete_backup-Recorded,
}

pub data BackupKind : Type 0 where
  create restore delete : BackupKind

abbrev pub ask_backup : BackupKind → BackupRequest → Exec Operation
ask_backup create = create_backup
ask_backup restore = restore_backup
ask_backup delete = delete_backup

abbrev pub scope_of_backup : BackupKind → BackupRequest → String
scope_of_backup create = create_scope
scope_of_backup restore = restore_scope
scope_of_backup delete = delete_scope

abbrev pub backup_permission : BackupKind → String
backup_permission create = "servers.backups.create"
backup_permission restore = "servers.backups.restore"
backup_permission delete = "servers.backups.delete"

-- A deletion does not look at the nodes first.
abbrev pub looked : BackupKind → BackupRequest → Memory → Memory
looked create r m = reconcile_node_liveness r.now m
looked restore r m = reconcile_node_liveness r.now m
looked delete r m = m

-- Where each operation stands under its own identifier, a request to create, restore or delete a
-- backup that succeeds leaves the answered operation stored, and its key recorded with it and with
-- the digest of the request.
pub ask_backup-Recorded :
    (kind : BackupKind) (r : BackupRequest) (m : Memory) (o : Operation)
    → IsKeyed m.operations
    → (ask_backup kind r m).0 ≡ ok o
    → Recorded (scope_of_backup kind r) r.digest o (ask_backup kind r m).1
ask_backup-Recorded create = create_backup-Recorded
ask_backup-Recorded restore = restore_backup-Recorded
ask_backup-Recorded delete = delete_backup-Recorded

-- A request to create, restore or delete a backup, of an authorized actor and with a valid key that
-- is recorded, gets the operation that the record names, or `IDEMPOTENCY_KEY_REUSED` if its digest is
-- another; apart from the look at the nodes, which a deletion does not take, the store stays as it
-- is.
pub ask_backup_replayed :
    (kind : BackupKind) (r : BackupRequest) (rec : IdempotencyRecord) (o : Operation) (actor : User)
    (m : Memory)
    → validate_idempotency_key r.key ≡ ok tt
    → authorize_server m r.actor_id r.server_id (backup_permission kind) ≡ ok actor
    → IsRecorded (scope_of_backup kind r) rec o m
    → ask_backup kind r m ≡ (answer rec r.digest o, looked kind r m)
ask_backup_replayed create = create_backup_replayed
ask_backup_replayed restore = restore_backup_replayed
ask_backup_replayed delete = delete_backup_replayed
