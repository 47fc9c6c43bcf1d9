-- ===== src/Store/Lifecycle.antt =====
-- An operation from its queue to its end.
use gu_gu_manager.Base.{
  ℕ, ◌≤◌, ◌≡◌, refl, sym, ap, ◌∙◌, if◌then◌else◌, Bool, true, false, not, none, Option, arith,
  str_eq, is_some, Bool-cases, inl, inr,
}
use gu_gu_manager.Store.Types.{Operation, OperationError, Server}
use gu_gu_manager.Store.Metadata.{
  is_terminal_operation, normalize_operation_metadata, complete_operation, fail_operation,
  operation_targets_current_server, operation_stale, complete_operation_for_generation,
}

-- What the metadata of an operation promises: attempts from one up to the maximum, no lease on a
-- terminal operation, and an error on one that failed.
pub record IsConsistent (o : Operation) : Type 0 where
  pub attempts : (1 ≤ o.attempt) × (o.attempt ≤ o.max_attempts)
  pub unleased :
      is_terminal_operation o.status ≡ true → (o.lease_owner ≡ none) × (o.lease_expires_at ≡ none)
  pub explained : str_eq o.status "failed" ≡ true → is_some o.error ≡ true

-- Normalizing makes any operation consistent and does not change its status.
pub normalize_operation_metadata-IsConsistent :
    (o : Operation)
    → IsConsistent (normalize_operation_metadata o)
      × ((normalize_operation_metadata o).status ≡ o.status)
unfolding normalize_operation_metadata
normalize_operation_metadata-IsConsistent o = ground arith

-- Normalizing again changes nothing.
normalize_operation_metadata_idem :
    (o : Operation)
    → normalize_operation_metadata (normalize_operation_metadata o) ≡ normalize_operation_metadata o
unfolding normalize_operation_metadata
normalize_operation_metadata_idem o = ground arith

-- How `completeOperationForGenerationLocked` ends.
pub record IsFinishedBy (o : Operation) (success : Bool) (r : Operation × Bool) : Type 0 where
  pub consistent : IsConsistent r.0
  pub decided : r.1 ≡ not (is_terminal_operation o.status)
  pub kept : r.1 ≡ false → r.0.status ≡ o.status
  pub outcome :
      r.1 ≡ true
      → (r.0.progress ≡ 100)
        × (is_terminal_operation r.0.status ≡ true)
        × (str_eq r.0.status "succeeded" ≡ success)

status_normal : (o : Operation) → (normalize_operation_metadata o).status ≡ o.status
unfolding normalize_operation_metadata
status_normal o = refl

attempts_normal :
    (o : Operation)
    → (1 ≤ (normalize_operation_metadata o).attempt)
      × ((normalize_operation_metadata o).attempt ≤ (normalize_operation_metadata o).max_attempts)
unfolding normalize_operation_metadata
attempts_normal o = ground arith

-- The common shape of `completeOperationLocked` and `failOperationLocked`.
ended_or-IsFinishedBy :
    (o normal final : Operation) (success : Bool)
    → normal.status ≡ o.status
    → IsConsistent normal
    → IsConsistent final
    → final.progress ≡ 100
    → is_terminal_operation final.status ≡ true
    → str_eq final.status "succeeded" ≡ success
    → IsFinishedBy o success
        (if is_terminal_operation normal.status then (normal, false) else (final, true))
ended_or-IsFinishedBy o normal final success same n c p t e =
    elim (Bool-cases (is_terminal_operation normal.status)) [
      | inl ended ↦ rw ended (record {
        consistent = n;
        decided = ap not (sym (ap is_terminal_operation (sym same) ∙ ended));
        kept = λ _. same;
        outcome = λ h. cc;
      })
      | inr going ↦ rw going (record {
        consistent = c;
        decided = ap not (sym (ap is_terminal_operation (sym same) ∙ going));
        kept = λ h. cc;
        outcome = λ _. (p, t, e);
      })
    ]

pub complete_operation-IsFinishedBy :
    (o : Operation) (now : ℕ) → IsFinishedBy o true (complete_operation o now)
unfolding complete_operation
complete_operation-IsFinishedBy o now =
    ended_or-IsFinishedBy o (normalize_operation_metadata o) _ true (status_normal o)
      (normalize_operation_metadata-IsConsistent o).0
      (record { attempts = attempts_normal o; unleased = λ _. (refl, refl); explained = λ h. cc })
      refl (unfold is_terminal_operation in refl) refl

pub fail_operation-IsFinishedBy :
    (o : Operation) (failure : OperationError) (now : ℕ)
    → IsFinishedBy o false (fail_operation o failure now)
unfolding fail_operation
fail_operation-IsFinishedBy o failure now =
    ended_or-IsFinishedBy o (normalize_operation_metadata o) _ false (status_normal o)
      (normalize_operation_metadata-IsConsistent o).0
      (record { attempts = attempts_normal o; unleased = λ _. (refl, refl); explained = λ _. refl })
      refl (unfold is_terminal_operation in refl) refl

pub complete_operation_for_generation-IsFinishedBy :
    (o : Operation) (server : Option Server) (now : ℕ)
    → IsFinishedBy o
        (operation_targets_current_server o server)
        (complete_operation_for_generation o server now)
unfolding complete_operation_for_generation
complete_operation_for_generation-IsFinishedBy o server now =
    elim (Bool-cases (operation_targets_current_server o server)) [
      | inl current ↦
          rw (current, complete_operation_for_generation) (complete_operation-IsFinishedBy o now)
      | inr stale ↦
          rw (stale, complete_operation_for_generation)
            (fail_operation-IsFinishedBy o operation_stale now)
    ]
