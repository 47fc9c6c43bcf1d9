-- ===== src/Store/Backups/Requests.antt =====
-- `CreateBackup`, `RestoreBackup`, `DeleteBackup`, and the lookups of a backup.
use Prim.Native.String.{◌++◌ as str_append}
use text.Mathlib.Text.{starts_with}
use gu_gu_manager.Base.{
  ℕ, ◌+◌, String, Bool, true, false, ◌&&◌, ◌||◌, Option, none, some, List, [], ◌∷◌, leb, ◌==◌,
  str_eq, if◌then◌else◌, length, drop,
}
use gu_gu_manager.Base.Maps.{lookup, insert}
use gu_gu_manager.Store.Types.{Operation, OperationError, User, Server, Backup, Memory}
use gu_gu_manager.Store.Exec.{
  ok, err, Exec, pure, raise, lift, gets, modify, ◌>>=◌, ◌>>◌, require, problem,
}
use gu_gu_manager.Store.Metadata.{new_queued_operation}
use gu_gu_manager.Store.Idempotency.{
  codes, validate_idempotency_key, idempotency_scope, active_exclusive_operation, put_operation,
  remember,
}
use gu_gu_manager.Store.Liveness.{reconcile_node_liveness}
use gu_gu_manager.Store.Power.{authorize, replay, find_server, node_condition_of, record_audit}

unfoldable pub backup_status_transition_allowed : String → String → Bool
backup_status_transition_allowed from to =
    if str_eq from to
    then true
    else if str_eq from "creating"
    then str_eq to "ready" || str_eq to "failed"
    else if str_eq from "failed"
    then str_eq to "creating" || str_eq to "deleting"
    else if str_eq from "ready"
    then str_eq to "restoring" || str_eq to "deleting"
    else if str_eq from "restoring"
    then str_eq to "ready"
    else if str_eq from "deleting"
    then str_eq to "ready" || str_eq to "failed" || str_eq to "deleted"
    else false

unfoldable pub find_backup : String → List Backup → Option Backup
find_backup id [] = none
find_backup id (b ∷ bs) = if str_eq b.id id then some b else find_backup id bs

-- `m.backups[serverID][backupIndex] = backup`, at the index of the first backup of that name.
unfoldable pub put_backup : String → Backup → List Backup → List Backup
put_backup id backup [] = []
put_backup id backup (b ∷ bs) = if str_eq b.id id then backup ∷ bs else b ∷ put_backup id backup bs

unfoldable pub backups_of : String → Memory → List Backup
unfolding lookup
backups_of server_id m = elim (lookup server_id m.backups) [ none ↦ [] | some bs ↦ bs ]

-- `backupLocked`.
unfoldable pub backup_of : String → String → Memory → Option Backup
unfolding backups_of find_backup
backup_of server_id backup_id m = find_backup backup_id (backups_of server_id m)

unfoldable pub set_backup : String → Backup → Memory → Memory
unfolding backups_of put_backup insert
set_backup server_id backup m = record m {
  backups = insert server_id (put_backup backup.id backup (backups_of server_id m)) m.backups;
}

-- `hex.DecodeString` accepts the digits of both cases; the digest has 32 bytes.
unfoldable pub are_hex_digits : List ℕ → Bool
are_hex_digits [] = true
are_hex_digits (c ∷ cs) =
    ((leb b'0' c && leb c b'9') || (leb b'a' c && leb c b'f') || (leb b'A' c && leb c b'F'))
    && are_hex_digits cs

unfoldable pub is_hex_digest : String → Bool
unfolding are_hex_digits
is_hex_digest checksum =
    starts_with checksum "sha256:"
    && are_hex_digits (drop 7 (codes checksum))
    && length (drop 7 (codes checksum)) == 64

unfoldable pub is_checksum_valid : Memory → Backup → Bool
unfolding is_hex_digest lookup
is_checksum_valid m backup = elim backup.checksum [
  | none ↦ false
  | some checksum ↦ elim (lookup backup.id m.backup_checksums) [
    | none ↦ false
    | some expected ↦ str_eq expected checksum && is_hex_digest checksum
  ]
]

-- The code that `backupFailureMetadata` gives.
unfoldable pub backup_failure_code : Option OperationError → String
backup_failure_code none = "BACKUP_FAILED"
backup_failure_code (some e) =
    if str_eq e.code "BACKUP_INTEGRITY_FAILED"
      || str_eq e.code "MAX_ATTEMPTS"
      || str_eq e.code "NODE_OFFLINE"
      || str_eq e.code "RUNTIME_UNAVAILABLE"
      || str_eq e.code "OPERATION_STALE"
      || str_eq e.code "TASK_CANCELED"
    then e.code
    else "BACKUP_FAILED"

-- A call: its arguments, and what it reads from outside of the store. `backup_id` is the new
-- identifier in `CreateBackup`.
pub record BackupRequest : Type 0 where
  pub server_id : String
  pub backup_id : String
  pub key : String
  pub actor_id : String
  pub now : ℕ
  pub new_id : String
  pub digest : String

unfoldable pub create_scope : BackupRequest → String
create_scope r = idempotency_scope "backup:create" r.actor_id r.server_id r.key

unfoldable pub restore_scope : BackupRequest → String
restore_scope r =
    idempotency_scope "backup:restore" r.actor_id
      (str_append r.server_id (str_append "/" r.backup_id)) r.key

unfoldable pub delete_scope : BackupRequest → String
delete_scope r =
    idempotency_scope "backup:delete" r.actor_id
      (str_append r.server_id (str_append "/" r.backup_id)) r.key

unfoldable pub require_idle : String → Exec (Unit {0})
require_idle server_id m = elim (active_exclusive_operation server_id m) [
  | none ↦ (ok tt, m)
  | some o ↦ (err (problem "OPERATION_IN_PROGRESS" true), m)
]

module _ (r : BackupRequest) where
  unfoldable pub queued : String → Server → ℕ → Operation
  unfolding new_queued_operation
  queued type server generation =
      new_queued_operation r.new_id r.server_id server.node_id type generation r.key r.now

  unfoldable pub accept_create : User → Server → Memory → Memory
  unfolding queued put_operation remember record_audit backups_of insert
  accept_create actor server m =
      let o = queued "backup" server server.generation in
      let m' = remember (create_scope r) o.id r.digest (put_operation o m) in
      record_audit actor.display_name "backup.create" server.name "accepted" o.id (record m' {
        backups = insert r.server_id (new_backup ∷ backups_of r.server_id m) m.backups;
        backup_operations = insert o.id r.backup_id m.backup_operations;
      })
    where
      new_backup : Backup
      new_backup = record {
        id = r.backup_id;
        status = "creating";
        size_bytes = none;
        checksum = none;
        manifest_digest = none;
        created_at = r.now;
        completed_at = none;
        failure_code = none;
        deleted_at = none;
      }

  unfoldable pub create_busy : Operation → Exec Operation
  create_busy active =
      if str_eq active.type "backup"
      then (do modify (remember (create_scope r) active.id r.digest); pure active)
      else raise (problem "OPERATION_IN_PROGRESS" true)

  unfoldable pub create_idle : User → Server → Exec Operation
  create_idle actor server = do
    modify (accept_create actor server)
    pure (queued "backup" server server.generation)

  unfoldable pub create_new : User → Exec Operation
  create_new actor = do
    server ← find_server r.server_id
    condition ← gets (node_condition_of server)
    require (str_eq condition "available") (problem "NODE_OFFLINE" true)
    require (str_eq server.lifecycle_state "ready") (problem "RESTORE_LOCKED" false)
    active ← gets (active_exclusive_operation r.server_id)
    elim active [ some o ↦ create_busy o | none ↦ create_idle actor server ]

  unfoldable pub create_backup : Exec Operation
  create_backup = do
    lift (validate_idempotency_key r.key)
    actor ← authorize r.actor_id r.server_id "servers.backups.create"
    modify (reconcile_node_liveness r.now)
    existing ← replay (create_scope r) r.digest
    elim existing [ some o ↦ pure o | none ↦ create_new actor ]

  unfoldable pub accept_restore : User → Server → Backup → Memory → Memory
  unfolding queued put_operation remember record_audit set_backup insert
  accept_restore actor server backup m =
      let o = queued "restore" server (server.generation + 1) in
      let m' = set_backup r.server_id (record backup { status = "restoring" }) m in
      record_audit actor.display_name "backup.restore" server.name "accepted" o.id (
        remember (restore_scope r) o.id r.digest (
          put_operation o (record m' {
            servers =
                insert r.server_id
                  (record server {
                    generation = server.generation + 1;
                    desired_power = "stopped";
                    updated_at = r.now;
                  })
                  m'.servers;
          })))

  -- A backup that is there and not deleted.
  unfoldable pub find_usable : Exec Backup
  unfolding backup_of
  find_usable m = elim (backup_of r.server_id r.backup_id m) [
    | none ↦ (err (problem "NOT_FOUND" false), m)
    | some b ↦ if str_eq b.status "deleted" then (err (problem "NOT_FOUND" false), m) else (ok b, m)
  ]

  unfoldable pub restore_new : User → Exec Operation
  restore_new actor = do
    server ← find_server r.server_id
    condition ← gets (node_condition_of server)
    require (str_eq condition "available") (problem "NODE_OFFLINE" true)
    backup ← find_usable
    require (str_eq server.lifecycle_state "ready" && str_eq server.observed_power "stopped")
        (problem "RESTORE_LOCKED" false)
    require (str_eq backup.status "ready") (problem "RESTORE_LOCKED" false)
    valid ← gets (λ m. is_checksum_valid m backup)
    require valid (problem "BACKUP_INTEGRITY_FAILED" false)
    require_idle r.server_id
    modify (accept_restore actor server backup)
    pure (queued "restore" server (server.generation + 1))

  unfoldable pub restore_backup : Exec Operation
  restore_backup = do
    lift (validate_idempotency_key r.key)
    actor ← authorize r.actor_id r.server_id "servers.backups.restore"
    modify (reconcile_node_liveness r.now)
    existing ← replay (restore_scope r) r.digest
    elim existing [ some o ↦ pure o | none ↦ restore_new actor ]

  unfoldable pub accept_delete : User → Server → Backup → Memory → Memory
  unfolding queued put_operation remember record_audit set_backup insert
  accept_delete actor server backup m =
      let o = queued "backup-delete" server server.generation in
      let m' = set_backup r.server_id (record backup { status = "deleting" }) m in
      record_audit actor.display_name "backup.delete" server.name "accepted" o.id (
        remember (delete_scope r) o.id r.digest (
          put_operation o
            (record m' { backup_delete_from = insert o.id backup.status m'.backup_delete_from })))

  unfoldable pub delete_new : User → Exec Operation
  delete_new actor = do
    server ← find_server r.server_id
    backup ← find_usable
    require (backup_status_transition_allowed backup.status "deleting")
        (problem "RESTORE_LOCKED" false)
    require_idle r.server_id
    modify (accept_delete actor server backup)
    pure (queued "backup-delete" server server.generation)

  unfoldable pub delete_backup : Exec Operation
  delete_backup = do
    lift (validate_idempotency_key r.key)
    actor ← authorize r.actor_id r.server_id "servers.backups.delete"
    existing ← replay (delete_scope r) r.digest
    elim existing [ some o ↦ pure o | none ↦ delete_new actor ]
