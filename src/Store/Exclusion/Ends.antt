-- ===== src/Store/Exclusion/Ends.antt =====
-- The workers only begin, continue and end operations that are there.
use gu_gu_manager.Base.{
  ℕ, ◌≡◌, refl, inl, inr, String, Bool, true, false, Option, none, some, arith, Bool-cases,
  Option-cases,
}
use gu_gu_manager.Base.Maps.{lookup, insert}
use gu_gu_manager.Store.Types.{Operation, OperationError, Server, Memory}
use gu_gu_manager.Store.Metadata.{
  is_terminal_operation, begin_metadata, complete_operation, fail_operation,
  complete_operation_for_generation,
}
use gu_gu_manager.Store.Idempotency.{is_active_on}
use gu_gu_manager.Store.Finish.{
  begin_operation, progress_metadata, progress_power, Settle, store_finished, finish,
  finish_provision, finish_power, finish_reconcile, audit_finished,
}
use gu_gu_manager.Store.Lifecycle.{
  complete_operation-IsFinishedBy, fail_operation-IsFinishedBy,
  complete_operation_for_generation-IsFinishedBy,
}
use gu_gu_manager.Store.Exclusion.Operations.{IsExclusive, IsCalmer, change-IsExclusive}

-- A result that is stored is terminal.
abbrev pub EndsWell : Operation × Bool → Type 0
EndsWell r = r.1 ≡ true → is_terminal_operation r.0.status ≡ true

terminal-IsCalmer : (o' o : Operation) → is_terminal_operation o'.status ≡ true → IsCalmer o' o
unfolding is_active_on
terminal-IsCalmer o' o h = record { calm = λ server active. ground arith }

begin-IsCalmer :
    (o : Operation) (now : ℕ)
    → is_terminal_operation o.status ≡ false
    → IsCalmer (begin_metadata o now) o
unfolding begin_metadata is_active_on
begin-IsCalmer o now h = record { calm = λ server active. ground arith }

progress-IsCalmer :
    (o : Operation) (now : ℕ)
    → is_terminal_operation o.status ≡ false
    → IsCalmer (progress_metadata o now) o
unfolding progress_metadata is_active_on
progress-IsCalmer o now h = record { calm = λ server active. ground arith }

pub begin_operation-IsExclusive :
    (id : String) (now : ℕ) (m : Memory)
    → IsExclusive m.operations
    → IsExclusive (begin_operation id now m).0.operations
unfolding begin_operation
begin_operation-IsExclusive id now m x = elim (Option-cases (lookup id m.operations)) [
  | inl e ↦ rw (e, begin_operation) x
  | inr (o, e) ↦ elim (Bool-cases (is_terminal_operation o.status)) [
    | inl ended ↦ rw (e, begin_operation, ended) x
    | inr going ↦
        rw (e, begin_operation, going)
          (change-IsExclusive id (begin_metadata o now) o m.operations e
            (begin-IsCalmer o now going) x)
  ]
]

pub progress_power-IsExclusive :
    (id : String) (now : ℕ) (m : Memory)
    → IsExclusive m.operations
    → IsExclusive (progress_power id now m).operations
unfolding progress_power
progress_power-IsExclusive id now m x = elim (Option-cases (lookup id m.operations)) [
  | inl e ↦ rw (e, progress_power) x
  | inr (o, e) ↦ elim (Bool-cases (is_terminal_operation o.status)) [
    | inl ended ↦ rw (e, progress_power, ended) x
    | inr going ↦
        rw (e, progress_power, going)
          (change-IsExclusive id (progress_metadata o now) o m.operations e
            (progress-IsCalmer o now going) x)
  ]
]

pub audit_finished-operations :
    (actor action id server_id : String) (server : Option Server) (r : Operation × Bool)
    (m : Memory)
    → (audit_finished actor action id server_id server r m).operations ≡ m.operations
unfolding audit_finished
audit_finished-operations actor action id server_id server (o, false) m = refl
audit_finished-operations actor action id server_id server (o, true) m = refl

module _ (id : String) (o : Operation) (m : Memory) (found : lookup id m.operations ≡ some o)
    (x : IsExclusive m.operations) where
  pub ended-IsExclusive :
      (o' : Operation)
      → is_terminal_operation o'.status ≡ true
      → IsExclusive (insert id o' m.operations)
  ended-IsExclusive o' h =
      change-IsExclusive id o' o m.operations found (terminal-IsCalmer o' o h) x

  store_finished-IsExclusive :
      (settle : Settle) (server_id : String) (server : Option Server) (r : Operation × Bool)
      → EndsWell r
      → IsExclusive (store_finished settle id server_id server r m).operations
  unfolding store_finished
  store_finished-IsExclusive settle server_id server (o', false) h = x
  store_finished-IsExclusive settle server_id none (o', true) h = ended-IsExclusive o' (h refl)
  store_finished-IsExclusive settle server_id (some s) (o', true) h = ended-IsExclusive o' (h refl)

pub for_generation-EndsWell :
    (o : Operation) (server : Option Server) (now : ℕ)
    → EndsWell (complete_operation_for_generation o server now)
for_generation-EndsWell o server now h =
    let fin = complete_operation_for_generation-IsFinishedBy o server now in (fin.outcome h).1

pub complete-EndsWell : (o : Operation) (now : ℕ) → EndsWell (complete_operation o now)
complete-EndsWell o now h = let fin = complete_operation-IsFinishedBy o now in (fin.outcome h).1

pub fail-EndsWell :
    (o : Operation) (failure : OperationError) (now : ℕ) → EndsWell (fail_operation o failure now)
fail-EndsWell o failure now h =
    let fin = fail_operation-IsFinishedBy o failure now in (fin.outcome h).1

module _ (id server_id : String) (now : ℕ) (m : Memory) (x : IsExclusive m.operations) where
  finish-IsExclusive : (settle : Settle) → IsExclusive (finish settle id server_id now m).operations
  unfolding finish
  finish-IsExclusive settle = elim (Option-cases (lookup id m.operations)) [
    | inl e ↦ rw (e, finish) x
    | inr (o, e) ↦
        rw (e, finish)
          (store_finished-IsExclusive id o m e x settle server_id (lookup server_id m.servers) _
            (for_generation-EndsWell o (lookup server_id m.servers) now))
  ]

  pub finish_provision-IsExclusive : IsExclusive (finish_provision id server_id now m).operations
  unfolding finish_provision
  finish_provision-IsExclusive = finish-IsExclusive _

  pub finish_power-IsExclusive :
      (action : String) → IsExclusive (finish_power id server_id action now m).operations
  unfolding finish_power
  finish_power-IsExclusive action = finish-IsExclusive _

  pub finish_reconcile-IsExclusive :
      (actor action : String)
      → IsExclusive (finish_reconcile id server_id actor action now m).operations
  unfolding finish_reconcile
  finish_reconcile-IsExclusive actor action = elim (Option-cases (lookup id m.operations)) [
    | inl e ↦ rw (e, finish_reconcile) x
    | inr (o, e) ↦
        rw (e, finish_reconcile, audit_finished-operations)
          (store_finished-IsExclusive id o m e x _ server_id (lookup server_id m.servers) _
            (for_generation-EndsWell o (lookup server_id m.servers) now))
  ]
