-- ===== src/Store/Repeats.antt =====
-- The theorems on idempotency keys at requests on a small store.
use gu_gu_manager.Base.{◌≡◌, refl}
use gu_gu_manager.Base.Maps.{lookup}
use gu_gu_manager.Store.Exec.{◌>>=◌, require}
use gu_gu_manager.Store.Metadata.{new_queued_operation}
use gu_gu_manager.Store.Access.{authorize_server}
use gu_gu_manager.Store.Idempotency.{
  validate_idempotency_key, idempotency_scope, idempotent_operation, active_exclusive_operation,
}
use gu_gu_manager.Store.Liveness.{reconcile_node_liveness}
use gu_gu_manager.Store.Power.{
  authorize, replay, find_server, node_condition_of, is_power_action, scope_of, power_operation,
  check_startup, request_idle, request_new, request_power,
}
use gu_gu_manager.Store.Backups.Requests.{
  restore_scope, restore_backup, queued, restore_new, find_usable, is_checksum_valid, require_idle,
}
use gu_gu_manager.Store.Replay.Answers.{answer, request_power_replayed}
use gu_gu_manager.Store.Replay.Records.{Recorded}
use gu_gu_manager.Store.Replay.Power.{request_power-Recorded}
use gu_gu_manager.Store.Replay.Kinds.{restore, ask_backup-Recorded, ask_backup_replayed}
use gu_gu_manager.Store.Samples.{
  admin, memory, no_variables, start_request, backup_request, started, archive, recorded_in,
  record_with,
}

request_power-Recorded_example :
    Recorded
      (scope_of start_request)
      "start"
      started
      (request_power no_variables start_request memory).1
unfolding request_power ◌>>=◌ validate_idempotency_key require is_power_action authorize
    authorize_server replay idempotent_operation reconcile_node_liveness request_new find_server
    node_condition_of active_exclusive_operation request_idle check_startup new_queued_operation
    power_operation
request_power-Recorded_example =
    request_power-Recorded no_variables start_request memory started tt refl

ask_backup-Recorded_example :
    Recorded
      (restore_scope backup_request)
      "create"
      (new_queued_operation "o2" "s1" "n1" "restore" 4 "0123456789abcdef" 12)
      (restore_backup backup_request archive).1
unfolding restore_backup ◌>>=◌ validate_idempotency_key authorize authorize_server replay
    idempotent_operation reconcile_node_liveness restore_new find_server require node_condition_of
    find_usable is_checksum_valid require_idle active_exclusive_operation new_queued_operation
    queued
ask_backup-Recorded_example =
    ask_backup-Recorded restore backup_request archive
      (new_queued_operation "o2" "s1" "n1" "restore" 4 "0123456789abcdef" 12) tt refl

-- The same request again is answered by the operation.
request_power_replayed_example :
    request_power no_variables start_request (recorded_in (scope_of start_request) "start") ≡ (
      answer (record_with "start") "start" started,
      reconcile_node_liveness 10 (recorded_in (scope_of start_request) "start"),
    )
unfolding validate_idempotency_key authorize_server is_power_action lookup scope_of
request_power_replayed_example =
    request_power_replayed start_request (record_with "start") started admin
      (recorded_in (scope_of start_request) "start") refl refl
      (record { known = refl; stored = refl }) no_variables refl

-- Another request under the same key is refused.
ask_backup_replayed_example :
    restore_backup backup_request (recorded_in (restore_scope backup_request) "other") ≡ (
      answer (record_with "other") "create" started,
      reconcile_node_liveness 12 (recorded_in (restore_scope backup_request) "other"),
    )
unfolding validate_idempotency_key authorize_server lookup restore_scope idempotency_scope
ask_backup_replayed_example =
    ask_backup_replayed restore backup_request (record_with "other") started admin
      (recorded_in (restore_scope backup_request) "other") refl refl
      (record { known = refl; stored = refl })
