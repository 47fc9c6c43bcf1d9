-- ===== src/Limiter/State.antt =====
-- The record kept for one key, and what the limiter computes from it.
use gu_gu_manager.Base.{
  ℕ, String, ◌+◌, ◌-◌, Bool, true, false, not, ◌&&◌, ◌||◌, List, [], ◌∷◌, ltb, leb, ◌==◌,
  if◌then◌else◌, length, Option, none, some,
}
use gu_gu_manager.Base.Maps.{Assoc, insert, remove}

-- The Go fields are signed; `new_attempt_limiter` refuses the values that are not positive.
pub record AttemptLimit : Type 0 where
  pub maximum : ℕ
  pub window : ℕ
  pub block_for : ℕ
  pub capacity : ℕ

pub record AttemptState : Type 0 where
  pub failures : List ℕ
  pub blocked_until : ℕ
  pub last_failure : ℕ
  pub last_activity : ℕ
  pub in_flight : ℕ

pub record AttemptLimiter : Type 0 where
  pub config : AttemptLimit
  pub open config use *
  pub entries : Assoc AttemptState

abbrev pub default_attempt_limit_capacity : ℕ
default_attempt_limit_capacity = 4096

-- `time.Second`.
abbrev pub second : ℕ
second = 1000000000

abbrev pub zero_state : AttemptState
zero_state = record {
  failures = [];
  blocked_until = 0;
  last_failure = 0;
  last_activity = 0;
  in_flight = 0;
}

-- The test on `now == nil` has no counterpart: the clock is an argument of the calls.
unfoldable pub new_attempt_limiter : AttemptLimit → Option AttemptLimiter
new_attempt_limiter given =
    if ltb config.maximum 1
      || leb config.window 0
      || leb config.block_for 0
      || ltb config.capacity 1
    then none
    else some (record { config = config; entries = [] })
  where
    config : AttemptLimit
    config = record given {
      capacity = if given.capacity == 0 then default_attempt_limit_capacity else given.capacity;
    }

abbrev is_nil {ℓ} : {A : Type ℓ} → List A → Bool
is_nil [] = true
is_nil (x ∷ xs) = false

-- `len(failures) == 0 && blockedUntil.IsZero() && inFlight == 0`.
unfoldable pub is_idle : AttemptState → Bool
is_idle s = is_nil s.failures && s.blocked_until == 0 && s.in_flight == 0

-- The loop over `firstCurrent`: the failures from the first that is not before the cutoff.
unfoldable pub drop_before : ℕ → List ℕ → List ℕ
drop_before cutoff [] = []
drop_before cutoff (f ∷ fs) = if ltb f cutoff then drop_before cutoff fs else f ∷ fs

-- A cutoff before the zero time is 0 here; no time is before either.
unfoldable pub prune : AttemptLimit → AttemptState → ℕ → AttemptState
unfolding drop_before
prune config s now =
    if not (s.blocked_until == 0) && ltb now s.blocked_until
    then s
    else if s.blocked_until == 0
    then record s { failures = drop_before (now - config.window) s.failures }
    else record s { blocked_until = 0; failures = drop_before (now - config.window) [] }

-- The wait until the oldest failure leaves the window, one second where that is not positive.
unfoldable pub window_wait : AttemptLimit → List ℕ → ℕ → ℕ
window_wait config [] now = second
window_wait config (f ∷ fs) now =
    if ltb 0 (f + config.window - now) then f + config.window - now else second

unfoldable pub retry_after : AttemptLimit → AttemptState → ℕ → ℕ
unfolding window_wait
retry_after config s now =
    if ltb now s.blocked_until
    then s.blocked_until - now
    else if ltb (length s.failures + s.in_flight) config.maximum
    then 0
    else if ltb 0 s.in_flight && is_nil s.failures
    then second
    else window_wait config s.failures now

unfoldable pub store_or_delete : String → AttemptState → Assoc AttemptState → Assoc AttemptState
unfolding is_idle
store_or_delete key s entries = if is_idle s then remove key entries else insert key s entries
