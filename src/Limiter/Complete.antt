-- ===== src/Limiter/Complete.antt =====
-- The completion of a reservation, and `Reset`.
use gu_gu_manager.Base.{
  ℕ, ◌+◌, ◌-◌, String, Bool, true, none, some, List, [], ◌∷◌, ◌++◌, ltb, leb, if◌then◌else◌, length,
  contains,
}
use gu_gu_manager.Base.Maps.{Assoc, lookup}
use gu_gu_manager.Limiter.State.{AttemptLimit, AttemptState, AttemptLimiter, prune, store_or_delete}
use gu_gu_manager.Limiter.Keys.{normalized_limit_keys}
use gu_gu_manager.Limiter.Reserve.{AttemptReservation, Admission, reserve}

pub data CompletionKind : Type 0 where
  cancel failure success : CompletionKind

-- `append(state.failures, now)` and the block that the limit brings.
unfoldable pub record_failure : AttemptLimit → ℕ → AttemptState → AttemptState
record_failure config now s =
    if ltb now s.blocked_until
    then s
    else if leb config.maximum (length (s.failures ++ now ∷ []))
    then record s { failures = []; blocked_until = now + config.block_for; last_failure = now }
    else record s { failures = s.failures ++ now ∷ []; last_failure = now }

unfoldable pub clear_failures : AttemptState → AttemptState
clear_failures s = record s { failures = []; blocked_until = 0 }

-- The `switch` of `complete`.
unfoldable pub settle : AttemptLimit → CompletionKind → Bool → ℕ → AttemptState → AttemptState
unfolding record_failure clear_failures
settle config cancel should_reset now s = s
settle config failure should_reset now s = record_failure config now s
settle config success should_reset now s = if should_reset then clear_failures s else s

-- One round of `complete`, for a pruned entry. The subtraction stops at 0, as the test on
-- `inFlight > 0` does.
unfoldable pub complete_state :
    AttemptLimit → CompletionKind → Bool → ℕ → AttemptState → AttemptState
unfolding settle
complete_state config kind should_reset now s =
    record (settle config kind should_reset now (record s { in_flight = s.in_flight - 1 })) {
      last_activity = now;
    }

module _ (config : AttemptLimit) (kind : CompletionKind) (reset_keys : List String) (now : ℕ) where
  unfoldable pub complete_key : String → Assoc AttemptState → Assoc AttemptState
  complete_key key m = elim (lookup key m) [
    | none ↦ m
    | some s ↦
        store_or_delete key
          (complete_state config kind (contains key reset_keys) now (prune config s now)) m
  ]

  unfoldable pub complete_keys : List String → Assoc AttemptState → Assoc AttemptState
  complete_keys [] m = m
  complete_keys (key ∷ keys) m = complete_keys keys (complete_key key m)

-- `(*AttemptLimiter).complete`.
unfoldable pub complete_locked :
    AttemptLimiter → List String → CompletionKind → List String → ℕ → AttemptLimiter
complete_locked l keys kind reset_keys now = record l {
  entries = complete_keys l.config kind reset_keys now (normalized_limit_keys keys) l.entries;
}

-- `(*AttemptReservation).complete`, once.
unfoldable pub complete :
    AttemptLimiter
    → AttemptReservation
    → CompletionKind
    → List String
    → ℕ
    → AttemptLimiter × AttemptReservation
complete l r kind reset_keys now =
    if r.is_done
    then (l, r)
    else (complete_locked l r.keys kind reset_keys now, record r { is_done = true })

unfoldable pub complete_failure :
    AttemptLimiter → AttemptReservation → ℕ → AttemptLimiter × AttemptReservation
unfolding complete
complete_failure l r now = complete l r failure [] now

unfoldable pub complete_success :
    AttemptLimiter → AttemptReservation → List String → ℕ → AttemptLimiter × AttemptReservation
unfolding complete
complete_success l r reset_keys now = complete l r success (normalized_limit_keys reset_keys) now

unfoldable pub cancel_reservation :
    AttemptLimiter → AttemptReservation → ℕ → AttemptLimiter × AttemptReservation
unfolding complete
cancel_reservation l r now = complete l r cancel [] now

abbrev after_admission :
    (AttemptLimiter → AttemptReservation → ℕ → AttemptLimiter × AttemptReservation)
    → Admission
    → ℕ
    → AttemptLimiter
after_admission finish a now = elim a.reservation [
  | none ↦ a.limiter
  | some r ↦ (finish a.limiter r now).0
]

-- `Allow` reads the clock twice, once for each call.
unfoldable pub allow : AttemptLimiter → List String → ℕ → ℕ → AttemptLimiter × Bool × ℕ
unfolding cancel_reservation
allow l keys now later =
    let a = reserve l keys now in
    (after_admission cancel_reservation a later, a.allowed, a.retry_after)

unfoldable pub record_attempt_failure : AttemptLimiter → List String → ℕ → ℕ → AttemptLimiter
unfolding complete_failure
record_attempt_failure l keys now later =
    after_admission complete_failure (reserve l keys now) later

module _ (config : AttemptLimit) (now : ℕ) where
  unfoldable pub reset_key : String → Assoc AttemptState → Assoc AttemptState
  unfolding clear_failures
  reset_key key m = elim (lookup key m) [
    | none ↦ m
    | some s ↦ store_or_delete key (clear_failures (prune config s now)) m
  ]

  unfoldable pub reset_keys : List String → Assoc AttemptState → Assoc AttemptState
  reset_keys [] m = m
  reset_keys (key ∷ keys) m = reset_keys keys (reset_key key m)

unfoldable pub reset : AttemptLimiter → List String → ℕ → AttemptLimiter
reset l keys now = record l {
  entries = reset_keys l.config now (normalized_limit_keys keys) l.entries;
}
