-- ===== src/Store/Backups/Workers.antt =====
-- `finishBackup`, `finishRestoreBackup` and `finishDeleteBackup` of internal/store/backups.go: their
-- last sections, which begin once `beginOperation` has accepted the operation.
use gu_gu_manager.Base.{
  ℕ, String, Bool, true, false, Option, none, some, str_eq, if◌then◌else◌, is_empty,
}
use gu_gu_manager.Base.Maps.{Assoc, lookup, insert, remove}
use gu_gu_manager.Store.Types.{Operation, OperationError, Server, Backup, Memory}
use gu_gu_manager.Store.Metadata.{
  complete_operation, fail_operation, complete_operation_for_generation,
  operation_targets_current_server, operation_stale,
}
use gu_gu_manager.Store.Finish.{audit_finished}
use gu_gu_manager.Store.Backups.Requests.{
  backup_of, set_backup, is_checksum_valid, backup_failure_code,
}

abbrev failure_of : String → OperationError
failure_of code = record { code = code; retryable = false }

unfoldable pub value_or_empty : String → Assoc String → String
unfolding lookup
value_or_empty key m = elim (lookup key m) [ none ↦ "" | some v ↦ v ]

-- `checksum_of` and `manifest_of` are the digests of crypto/sha256 and encoding/hex.
module _ (checksum_of : String → Server → ℕ → String) (manifest_of : String → String) where
  unfoldable pub ready_backup : Server → ℕ → Backup → Backup
  ready_backup server now backup = record backup {
    status = "ready";
    size_bytes = some server.disk_bytes;
    checksum = some (checksum_of backup.id server now);
    manifest_digest = some (manifest_of (checksum_of backup.id server now));
    completed_at = some now;
    failure_code = none;
  }

  -- The branch of a backup that is found. A server that is not found cannot have succeeded.
  unfoldable pub store_backup : String → Option Server → ℕ → Operation → Backup → Memory → Memory
  unfolding ready_backup set_backup backup_failure_code insert
  store_backup server_id none now o backup m =
      set_backup server_id
        (record backup {
          status = "failed";
          failure_code = some (backup_failure_code o.error);
          completed_at = none;
        })
        m
  store_backup server_id (some server) now o backup m =
      if str_eq o.status "succeeded"
      then record (set_backup server_id (ready_backup server now backup) m) {
        backup_checksums = insert backup.id (checksum_of backup.id server now) m.backup_checksums;
      }
      else set_backup server_id
          (record backup {
            status = "failed";
            failure_code = some (backup_failure_code o.error);
            completed_at = none;
          })
          m

  -- The rest of the section for a finished operation, with the name of its backup; the audit event
  -- is missing where the backup is.
  unfoldable pub finish_named :
      String → String → Option Server → ℕ → String → Operation → String → Memory → Memory
  unfolding audit_finished store_backup backup_of insert
  finish_named id server_id server now actor o backup_id m =
      if is_empty backup_id
      then audit_finished actor "backup.create" id server_id server (o, true) m
      else elim (backup_of server_id backup_id m) [
        | none ↦ record m {
          operations =
              insert id
                (record o {
                  status = "failed";
                  checkpoint = "failed";
                  error = some (failure_of "BACKUP_FAILED");
                })
                m.operations;
        }
        | some backup ↦
            audit_finished actor "backup.create" id server_id server (o, true)
              (store_backup server_id server now o backup m)
      ]

  unfoldable pub finish_result :
      String → String → Option Server → ℕ → String → Operation × Bool → Memory → Memory
  unfolding finish_named value_or_empty insert
  finish_result id server_id server now actor (o, false) m = m
  finish_result id server_id server now actor (o, true) m =
      finish_named id server_id server now actor o (value_or_empty id m.backup_operations)
        (record m { operations = insert id o m.operations })

  unfoldable pub finish_backup : String → String → String → ℕ → Memory → Memory
  unfolding finish_result complete_operation_for_generation lookup remove
  finish_backup id server_id actor now m =
      let m' = elim (lookup id m.operations) as (λ _. Memory) [
        | none ↦ m
        | some o ↦
            let server = lookup server_id m.servers in
            finish_result id server_id server now actor
              (complete_operation_for_generation o server now) m
      ] in
      record m' { backup_operations = remove id m'.backup_operations }

-- The outcome of a restore or a deletion: the operation, `completed` and `succeeded`.
unfoldable pub restore_outcome :
    Memory → Operation → Option Server → Option Backup → ℕ → Operation × Bool
unfolding operation_targets_current_server complete_operation fail_operation is_checksum_valid
restore_outcome m o server none now =
    if operation_targets_current_server o server
    then fail_operation o (failure_of "BACKUP_INTEGRITY_FAILED") now
    else fail_operation o operation_stale now
restore_outcome m o server (some backup) now =
    if operation_targets_current_server o server
    then (if is_checksum_valid m backup
        then complete_operation o now
        else fail_operation o (failure_of "BACKUP_INTEGRITY_FAILED") now)
    else fail_operation o operation_stale now

unfoldable pub delete_outcome : Operation → Option Server → Option Backup → ℕ → Operation × Bool
unfolding operation_targets_current_server complete_operation fail_operation
delete_outcome o server backup now =
    if operation_targets_current_server o server
    then elim backup [
      | none ↦ fail_operation o (failure_of "OPERATION_FAILED") now
      | some b ↦ complete_operation o now
    ]
    else fail_operation o operation_stale now

unfoldable pub settled_restore : Operation → Backup → Backup
unfolding backup_failure_code
settled_restore o backup = record backup {
  status = "ready";
  failure_code = if str_eq o.status "succeeded" then none else some (backup_failure_code o.error);
}

unfoldable pub restored_server : ℕ → Server → Server
restored_server now server = record server {
  desired_power = "stopped";
  observed_power = "stopped";
  health_condition = "unknown";
  observed_generation = server.generation;
  observed_at = now;
  updated_at = now;
}

-- `m.servers[serverID] = server` of a restore that succeeded.
unfoldable pub settle_server : String → Option Server → ℕ → Operation → Memory → Memory
unfolding restored_server insert
settle_server server_id none now o m = m
settle_server server_id (some server) now o m =
    if str_eq o.status "succeeded"
    then record m { servers = insert server_id (restored_server now server) m.servers }
    else m

unfoldable pub settle_found : String → (Backup → Backup) → Option Backup → Memory → Memory
unfolding set_backup
settle_found server_id change none m = m
settle_found server_id change (some backup) m = set_backup server_id (change backup) m

unfoldable pub finish_restored :
    String
    → String
    → Option Server
    → Option Backup
    → ℕ
    → String
    → Operation × Bool
    → Memory
    → Memory
unfolding settle_found settled_restore settle_server audit_finished insert
finish_restored id server_id server backup now actor (o, false) m = m
finish_restored id server_id server backup now actor (o, true) m =
    audit_finished actor "backup.restore" id server_id server (o, true)
      (settle_server server_id server now o (
        settle_found server_id (settled_restore o) backup
          (record m { operations = insert id o m.operations })))

unfoldable pub finish_restore_backup : String → String → String → String → ℕ → Memory → Memory
unfolding finish_restored restore_outcome backup_of lookup
finish_restore_backup id server_id backup_id actor now m = elim (lookup id m.operations) [
  | none ↦ m
  | some o ↦
      let server = lookup server_id m.servers in
      let backup = backup_of server_id backup_id m in
      finish_restored id server_id server backup now actor (restore_outcome m o server backup now) m
]

-- A deletion that failed gives back the status that the request found.
unfoldable pub settled_delete : String → ℕ → Operation → Backup → Backup
unfolding backup_failure_code
settled_delete delete_from now o backup =
    if str_eq o.status "succeeded"
    then record backup { status = "deleted"; deleted_at = some now; failure_code = none }
    else record backup {
      status = if str_eq delete_from "failed" then "failed" else "ready";
      failure_code = some (backup_failure_code o.error);
    }

unfoldable pub forget_checksum : String → Operation → Memory → Memory
unfolding remove
forget_checksum backup_id o m =
    if str_eq o.status "succeeded"
    then record m { backup_checksums = remove backup_id m.backup_checksums }
    else m

unfoldable pub finish_deleted :
    String
    → String
    → String
    → Option Server
    → Option Backup
    → ℕ
    → String
    → Operation × Bool
    → Memory
    → Memory
unfolding settle_found settled_delete forget_checksum audit_finished value_or_empty insert
finish_deleted id server_id backup_id server backup now actor (o, false) m = m
finish_deleted id server_id backup_id server backup now actor (o, true) m =
    audit_finished actor "backup.delete" id server_id server (o, true)
      (forget_checksum backup_id o (
        settle_found server_id (settled_delete (value_or_empty id m.backup_delete_from) now o)
          backup (record m { operations = insert id o m.operations })))

unfoldable pub finish_delete_backup : String → String → String → String → ℕ → Memory → Memory
unfolding finish_deleted delete_outcome backup_of lookup remove
finish_delete_backup id server_id backup_id actor now m =
    let m' = elim (lookup id m.operations) as (λ _. Memory) [
      | none ↦ m
      | some o ↦
          let server = lookup server_id m.servers in
          let backup = backup_of server_id backup_id m in
          finish_deleted id server_id backup_id server backup now actor
            (delete_outcome o server backup now) m
    ] in
    record m' { backup_delete_from = remove id m'.backup_delete_from }
