-- ===== src/Store/Exclusion/Archives.antt =====
-- The sections of the backup workers only end operations that are there.
use gu_gu_manager.Base.{
  ℕ, ◌≡◌, refl, inl, inr, String, Bool, true, false, Option, none, some, arith, str_eq, Bool-cases,
  Option-cases, if◌then◌else◌, is_empty,
}
use gu_gu_manager.Base.Maps.{lookup, lookup-insert_same}
use gu_gu_manager.Store.Types.{Operation, Server, Backup, Memory}
use gu_gu_manager.Store.Metadata.{
  is_terminal_operation, operation_targets_current_server, operation_stale,
}
use gu_gu_manager.Store.Backups.Requests.{set_backup, backup_of, is_checksum_valid}
use gu_gu_manager.Store.Backups.Workers.{
  store_backup, finish_named, finish_result, finish_backup, restore_outcome, delete_outcome,
  settle_found, settle_server, forget_checksum, finish_restored, finish_restore_backup,
  finish_deleted, finish_delete_backup,
}
use gu_gu_manager.Store.Exclusion.Operations.{IsExclusive}
use gu_gu_manager.Store.Exclusion.Ends.{
  EndsWell, complete-EndsWell, fail-EndsWell, for_generation-EndsWell, ended-IsExclusive,
  audit_finished-operations,
}

set_backup-operations :
    (server_id : String) (b : Backup) (m : Memory)
    → (set_backup server_id b m).operations ≡ m.operations
unfolding set_backup
set_backup-operations server_id b m = ground arith

settle_found-operations :
    (server_id : String) (change : Backup → Backup) (b : Option Backup) (m : Memory)
    → (settle_found server_id change b m).operations ≡ m.operations
unfolding settle_found
settle_found-operations server_id change none m = refl
settle_found-operations server_id change (some b) m = set_backup-operations server_id (change b) m

settle_server-operations :
    (server_id : String) (server : Option Server) (now : ℕ) (o : Operation) (m : Memory)
    → (settle_server server_id server now o m).operations ≡ m.operations
unfolding settle_server
settle_server-operations server_id none now o m = refl
settle_server-operations server_id (some s) now o m = ground arith

forget_checksum-operations :
    (backup_id : String) (o : Operation) (m : Memory)
    → (forget_checksum backup_id o m).operations ≡ m.operations
unfolding forget_checksum
forget_checksum-operations backup_id o m = ground arith

if-EndsWell :
    (b : Bool) (r r' : Operation × Bool) → EndsWell r → EndsWell r' → EndsWell (if b then r else r')
if-EndsWell true r r' h h' = h
if-EndsWell false r r' h h' = h'

restore-EndsWell :
    (m : Memory) (o : Operation) (server : Option Server) (b : Option Backup) (now : ℕ)
    → EndsWell (restore_outcome m o server b now)
unfolding restore_outcome
restore-EndsWell m o server none now =
    if-EndsWell (operation_targets_current_server o server) _ _ (fail-EndsWell o _ now)
      (fail-EndsWell o operation_stale now)
restore-EndsWell m o server (some b) now =
    if-EndsWell (operation_targets_current_server o server) _ _
      (if-EndsWell (is_checksum_valid m b) _ _ (complete-EndsWell o now) (fail-EndsWell o _ now))
      (fail-EndsWell o operation_stale now)

delete-EndsWell :
    (o : Operation) (server : Option Server) (b : Option Backup) (now : ℕ)
    → EndsWell (delete_outcome o server b now)
unfolding delete_outcome
delete-EndsWell o server none now =
    if-EndsWell (operation_targets_current_server o server) _ _ (fail-EndsWell o _ now)
      (fail-EndsWell o operation_stale now)
delete-EndsWell o server (some b) now =
    if-EndsWell (operation_targets_current_server o server) _ _ (complete-EndsWell o now)
      (fail-EndsWell o operation_stale now)

module _ (id server_id : String) (now : ℕ) (m : Memory) (x : IsExclusive m.operations) where
  module _ (o : Operation) (found : lookup id m.operations ≡ some o) where
    finish_restored-IsExclusive :
        (server : Option Server) (b : Option Backup) (actor : String) (r : Operation × Bool)
        → EndsWell r
        → IsExclusive (finish_restored id server_id server b now actor r m).operations
    unfolding finish_restored
    finish_restored-IsExclusive server b actor (o', false) h = x
    finish_restored-IsExclusive server b actor (o', true) h =
        rw
          (
            finish_restored, audit_finished-operations, settle_server-operations,
            settle_found-operations,
          )
          (ended-IsExclusive id o m found x o' (h refl))

    finish_deleted-IsExclusive :
        (backup_id : String) (server : Option Server) (b : Option Backup) (actor : String)
        (r : Operation × Bool)
        → EndsWell r
        → IsExclusive (finish_deleted id server_id backup_id server b now actor r m).operations
    unfolding finish_deleted
    finish_deleted-IsExclusive backup_id server b actor (o', false) h = x
    finish_deleted-IsExclusive backup_id server b actor (o', true) h =
        rw
          (
            finish_deleted, audit_finished-operations, forget_checksum-operations,
            settle_found-operations,
          )
          (ended-IsExclusive id o m found x o' (h refl))

  pub finish_restore_backup-IsExclusive :
      (backup_id actor : String)
      → IsExclusive (finish_restore_backup id server_id backup_id actor now m).operations
  unfolding finish_restore_backup
  finish_restore_backup-IsExclusive backup_id actor = elim (Option-cases (lookup id m.operations)) [
    | inl e ↦ rw (e, finish_restore_backup) x
    | inr (o, e) ↦
        rw (e, finish_restore_backup)
          (finish_restored-IsExclusive o e (lookup server_id m.servers)
            (backup_of server_id backup_id m) actor
            (restore_outcome m o (lookup server_id m.servers) (backup_of server_id backup_id m) now)
            (restore-EndsWell m o _ _ now))
  ]

  pub finish_delete_backup-IsExclusive :
      (backup_id actor : String)
      → IsExclusive (finish_delete_backup id server_id backup_id actor now m).operations
  unfolding finish_delete_backup
  finish_delete_backup-IsExclusive backup_id actor = elim (Option-cases (lookup id m.operations)) [
    | inl e ↦ rw (e, finish_delete_backup) x
    | inr (o, e) ↦
        rw (e, finish_delete_backup)
          (finish_deleted-IsExclusive o e backup_id (lookup server_id m.servers)
            (backup_of server_id backup_id m) actor
            (delete_outcome o (lookup server_id m.servers) (backup_of server_id backup_id m) now)
            (delete-EndsWell o _ _ now))
  ]

module _ (checksum_of : String → Server → ℕ → String) (manifest_of : String → String)
    (id server_id : String) (now : ℕ) where
  store_backup-operations :
      (server : Option Server) (o : Operation) (b : Backup) (m : Memory)
      → (store_backup checksum_of manifest_of server_id server now o b m).operations ≡ m.operations
  unfolding store_backup set_backup
  store_backup-operations none o b m = refl
  store_backup-operations (some s) o b m = elim (Bool-cases (str_eq o.status "succeeded")) [
    | inl e ↦ rw (store_backup, e) refl
    | inr e ↦ rw (store_backup, e) refl
  ]

  finish_named-IsExclusive :
      (server : Option Server) (actor : String) (o : Operation) (backup_id : String) (m : Memory)
      → lookup id m.operations ≡ some o
      → IsExclusive m.operations
      → IsExclusive
          (finish_named checksum_of manifest_of id server_id server now actor o backup_id
            m).operations
  unfolding finish_named
  finish_named-IsExclusive server actor o backup_id m found x =
      elim (Bool-cases (is_empty backup_id)) [
        | inl e ↦ rw (finish_named, e, audit_finished-operations) x
        | inr e ↦ elim (Option-cases (backup_of server_id backup_id m)) [
          | inl missing ↦
              rw (finish_named, e, missing)
                (ended-IsExclusive id o m found x _ (unfold is_terminal_operation in refl))
          | inr (b, there) ↦
              rw (finish_named, e, there, audit_finished-operations, store_backup-operations) x
        ]
      ]

  finish_result-IsExclusive :
      (server : Option Server) (actor : String) (o : Operation) (r : Operation × Bool) (m : Memory)
      → lookup id m.operations ≡ some o
      → EndsWell r
      → IsExclusive m.operations
      → IsExclusive
          (finish_result checksum_of manifest_of id server_id server now actor r m).operations
  unfolding finish_result
  finish_result-IsExclusive server actor o (o', false) m found h x = x
  finish_result-IsExclusive server actor o (o', true) m found h x =
      finish_named-IsExclusive server actor o' _ _ (lookup-insert_same id o' m.operations)
        (ended-IsExclusive id o m found x o' (h refl))

  pub finish_backup-IsExclusive :
      (actor : String) (m : Memory)
      → IsExclusive m.operations
      → IsExclusive (finish_backup checksum_of manifest_of id server_id actor now m).operations
  unfolding finish_backup
  finish_backup-IsExclusive actor m x = elim (Option-cases (lookup id m.operations)) [
    | inl e ↦ rw (e, finish_backup) x
    | inr (o, e) ↦
        rw (e, finish_backup)
          (finish_result-IsExclusive (lookup server_id m.servers) actor o _ m e
            (for_generation-EndsWell o (lookup server_id m.servers) now) x)
  ]
