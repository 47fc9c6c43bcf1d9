-- ===== src/Limiter/Sound/States.antt =====
-- Facts about the record of one key.
use gu_gu_manager.Base.{
  ℕ, ◌+◌, ◌-◌, ◌≤◌, ◌<◌, ◌≡◌, ◌⊎◌, Bool, false, List, [], ◌∷◌, arith, length, length-append,
}
use gu_gu_manager.Limiter.State.{
  AttemptLimit, AttemptState, is_idle, drop_before, prune, window_wait, retry_after,
}
use gu_gu_manager.Limiter.Complete.{
  CompletionKind, cancel, failure, success, clear_failures, complete_state,
}

-- Failures and attempts in flight stay within the maximum, and a block has no failures beside it.
pub record IsTame (config : AttemptLimit) (s : AttemptState) : Type 0 where
  pub bounded : length s.failures + s.in_flight ≤ config.maximum
  pub exclusive : (s.blocked_until ≡ 0) ⊎ (s.failures ≡ [])

pub record IsGood (config : AttemptLimit) (s : AttemptState) : Type 0 where
  pub bounded : length s.failures + s.in_flight ≤ config.maximum
  pub exclusive : (s.blocked_until ≡ 0) ⊎ (s.failures ≡ [])
  pub live : is_idle s ≡ false

length-drop_before : (cutoff : ℕ) (fs : List ℕ) → length (drop_before cutoff fs) ≤ length fs
unfolding drop_before
length-drop_before cutoff [] = omega arith
length-drop_before cutoff (f ∷ fs) = ground (arith, length-drop_before cutoff fs)

module _ (config : AttemptLimit) (s : AttemptState) (now : ℕ) where
  pub in_flight-prune : (prune config s now).in_flight ≡ s.in_flight
  unfolding prune
  in_flight-prune = ground arith

  pub length-prune : length (prune config s now).failures ≤ length s.failures
  unfolding prune
  length-prune = ground (arith, length-drop_before (now - config.window) s.failures)

  pub prune-IsTame : IsTame config s → IsTame config (prune config s now)
  unfolding prune
  prune-IsTame t = ground (arith, length-drop_before (now - config.window) s.failures)

  -- A pruned record is blocked only by a block that has not ended.
  pub prune_blocked :
      ((prune config s now).blocked_until ≡ 0) ⊎ (now < (prune config s now).blocked_until)
  unfolding prune
  prune_blocked = ground arith

  pub blocked-prune_le : (prune config s now).blocked_until ≤ s.blocked_until
  unfolding prune
  blocked-prune_le = ground arith

window_wait_pos : (config : AttemptLimit) (fs : List ℕ) (now : ℕ) → 0 < window_wait config fs now
unfolding window_wait
window_wait_pos config [] now = omega arith
window_wait_pos config (f ∷ fs) now = ground arith

module _ (config : AttemptLimit) (s : AttemptState) (now : ℕ) where
  -- No wait exactly when there is no block and a place is left.
  pub retry_after_zero :
      retry_after config s now ≡ 0
      → (s.blocked_until ≤ now) × (length s.failures + s.in_flight < config.maximum)
  unfolding retry_after
  retry_after_zero h = ground (arith, window_wait_pos config s.failures now)

  pub retry_after_free :
      s.blocked_until ≤ now
      → length s.failures + s.in_flight < config.maximum
      → retry_after config s now ≡ 0
  unfolding retry_after
  retry_after_free h k = ground arith

  pub retry_after_blocked : now < s.blocked_until → retry_after config s now ≡ s.blocked_until - now
  unfolding retry_after
  retry_after_blocked h = ground arith

pub prune_still_free :
    (config : AttemptLimit) (s : AttemptState) (now : ℕ)
    → retry_after config s now ≡ 0
    → retry_after config (prune config s now) now ≡ 0
prune_still_free config s now h =
    let free = retry_after_zero config s now h in
    retry_after_free config (prune config s now) now
      (omega (arith, free.0, blocked-prune_le config s now))
      (omega (arith, free.1, length-prune config s now, in_flight-prune config s now))

pub clear_failures-IsTame :
    (config : AttemptLimit) (s : AttemptState) → IsTame config s → IsTame config (clear_failures s)
unfolding clear_failures
clear_failures-IsTame config s t = ground arith

-- One place in flight is given back, so a failure may take it.
pub complete_state-IsTame :
    (config : AttemptLimit) (kind : CompletionKind) (should_reset : Bool) (now : ℕ)
    (s : AttemptState)
    → (s.blocked_until ≡ 0) ⊎ (now < s.blocked_until)
    → IsTame config s
    → IsTame config (complete_state config kind should_reset now s)
unfolding complete_state
complete_state-IsTame config cancel should_reset now s b t = ground arith
complete_state-IsTame config failure should_reset now s b t =
    ground (arith, length-append s.failures (now ∷ []))
complete_state-IsTame config success should_reset now s b t = ground arith
