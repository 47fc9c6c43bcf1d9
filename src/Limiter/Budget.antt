-- ===== src/Limiter/Budget.antt =====
-- Every call keeps each key within its budget and the map within its capacity.
use gu_gu_manager.Base.{
  ℕ, ◌&&◌, ◌+◌, ◌≤◌, ◌<◌, ◌≡◌, refl, ◌∙◌, inl, inr, String, Bool, true, false, none, some, List, [],
  ◌∷◌, arith, ltb, Bool-cases, contains, if◌then◌else◌, length,
}
use gu_gu_manager.Base.Maps.{Assoc, lookup}
use gu_gu_manager.Limiter.State.{AttemptLimit, AttemptState, AttemptLimiter, new_attempt_limiter}
use gu_gu_manager.Limiter.Keys.{normalized_limit_keys}
use gu_gu_manager.Limiter.Reserve.{
  Admission, Checked, check_keys, prune_entries, missing, ensure_capacity, conclude,
  reserve_checked, reserve_keys, reserve,
}
use gu_gu_manager.Limiter.Complete.{CompletionKind, complete_locked, reset}
use gu_gu_manager.Limiter.Sound.Entries.{
  IsSound, check_keys-IsSound, prune_entries-IsSound, complete_keys-IsSound, reset_keys-IsSound,
}
use gu_gu_manager.Limiter.Sound.Evict.{make_room-HasRoom}
use gu_gu_manager.Limiter.Sound.Room.{in_flight_of}
use gu_gu_manager.Limiter.Sound.Waits.{
  wait_of, check_keys_covers, check_keys_in_flight, prune_entries_wait, prune_entries_in_flight,
}
use gu_gu_manager.Limiter.Sound.Admit.{
  AreOnce, normalized_limit_keys-AreOnce, admit_keys-IsSound, admit_keys-in_flight,
}

-- Each entry has at most `maximum` failures and attempts in flight together, no failures beside a
-- block, and something to remember; keys are distinct and entries at most `capacity`.
pub record IsWithinBudget (l : AttemptLimiter) : Type 0 where
  pub positive : 0 < l.maximum
  pub entries_sound : IsSound l.config l.capacity l.entries

wait_of-lookup :
    (config : AttemptLimit) (now : ℕ) (j : String) (m m' : Assoc AttemptState)
    → lookup j m ≡ lookup j m'
    → wait_of config now j m ≡ wait_of config now j m'
unfolding wait_of
wait_of-lookup config now j m m' e = ground arith

-- What `ensureCapacity` returns for entries on which no requested key has to wait.
record IsPrepared (config : AttemptLimit) (n : ℕ) (keys : List String) (now : ℕ)
    (m : Assoc AttemptState) (r : Assoc AttemptState × Bool) : Type 0 where
  sound : IsSound config n r.0
  ledger : (j : String) → in_flight_of j r.0 ≡ in_flight_of j m
  free : (j : String) → contains j keys ≡ true → wait_of config now j r.0 ≡ 0
  room : r.1 ≡ true → length r.0 + missing keys r.0 ≤ config.capacity

ensure_capacity-IsPrepared :
    (config : AttemptLimit) (n : ℕ) (keys : List String) (now : ℕ) (m : Assoc AttemptState)
    → IsSound config n m
    → ((j : String) → contains j keys ≡ true → wait_of config now j m ≡ 0)
    → IsPrepared config n keys now m (ensure_capacity config keys now m)
unfolding ensure_capacity
ensure_capacity-IsPrepared config n keys now m v w =
    let pruned = prune_entries config now m in
    let roomy = make_room-HasRoom config n keys pruned (prune_entries-IsSound config now n m v) in
    record {
      sound = roomy.sound;
      ledger = λ j. roomy.ledger j ∙ prune_entries_in_flight config now j m v.distinct;
      free = λ j r.
          wait_of-lookup config now j _ pruned (roomy.requested_stay j r)
          ∙ prune_entries_wait config now j m v.distinct (w j r);
      room = roomy.room;
    }

-- What holds of an admission: budget and capacity, the attempts in flight of every key, and the
-- reservation that the caller gets.
pub record IsFair (l : AttemptLimiter) (keys : List String) (a : Admission) : Type 0 where
  pub budget : IsWithinBudget a.limiter
  pub ledger :
      (j : String)
      → in_flight_of j a.limiter.entries
        ≡ in_flight_of j l.entries + (if a.allowed && contains j keys then 1 else 0)
  pub held :
      a.reservation ≡ (if a.allowed then some (record { keys = keys; is_done = false }) else none)

conclude-IsFair :
    (l : AttemptLimiter) (keys : List String) (now : ℕ) (m : Assoc AttemptState)
    (r : Assoc AttemptState × Bool)
    → 0 < l.maximum
    → AreOnce keys
    → ((j : String) → in_flight_of j m ≡ in_flight_of j l.entries)
    → IsPrepared l.config l.capacity keys now m r
    → IsFair l keys (conclude l keys now r)
unfolding conclude
conclude-IsFair l keys now m (m', false) pos o same p = record {
  budget = record { positive = pos; entries_sound = p.sound };
  ledger = λ j. omega (arith, p.ledger j, same j);
  held = refl;
}
conclude-IsFair l keys now m (m', true) pos o same p = record {
  budget = record {
    positive = pos;
    entries_sound =
        admit_keys-IsSound l.config now keys m' pos o p.free (p.room refl) p.sound.states
          p.sound.distinct;
  };
  ledger = λ j. admit_keys-in_flight now keys j m' o ∙ ground (arith, p.ledger j, same j);
  held = refl;
}

reserve_checked-IsFair :
    (l : AttemptLimiter) (keys : List String) (now : ℕ) (c : Checked)
    → 0 < l.maximum
    → AreOnce keys
    → IsSound l.config l.capacity c.entries
    → ((j : String) → in_flight_of j c.entries ≡ in_flight_of j l.entries)
    → ((j : String) → contains j keys ≡ true → wait_of l.config now j c.entries ≤ c.max_retry_after)
    → IsFair l keys (reserve_checked l keys now c)
unfolding reserve_checked
reserve_checked-IsFair l keys now c pos o v same covered =
    elim (Bool-cases (ltb 0 c.max_retry_after)) [
      | inl blocked ↦
          rw (blocked, reserve_checked)
            (record {
              budget = record { positive = pos; entries_sound = v };
              ledger = λ j. omega (arith, same j);
              held = refl;
            })
      | inr open' ↦
          rw (open', reserve_checked)
            (conclude-IsFair l keys now c.entries _ pos o same (
              ensure_capacity-IsPrepared l.config l.capacity keys now c.entries v
                (λ j r. ground (arith, covered j r))))
    ]

pub reserve_keys-IsFair :
    (l : AttemptLimiter) (keys : List String) (now : ℕ)
    → AreOnce keys
    → IsWithinBudget l
    → IsFair l keys (reserve_keys l keys now)
unfolding reserve_keys contains
reserve_keys-IsFair l [] now o v = record { budget = v; ledger = λ j. omega arith; held = refl }
reserve_keys-IsFair l (k ∷ ks) now o v =
    let start : Checked = record { entries = l.entries; max_retry_after = 0 } in
    reserve_checked-IsFair l (k ∷ ks) now (check_keys l.config now (k ∷ ks) start) v.positive o
      (check_keys-IsSound l.config l.capacity now (k ∷ ks) start v.entries_sound)
      (λ j. check_keys_in_flight l.config now (k ∷ ks) j start)
      (λ j r. check_keys_covers l.config now (k ∷ ks) j start (λ out. cc))

-- A call on the limiter at a time.
pub data Call : Type 0 where
  reserves : List String → Call
  completes : List String → CompletionKind → List String → Call
  resets : List String → Call

unfoldable pub step : AttemptLimiter → ℕ × Call → AttemptLimiter
step l (now, reserves keys) = (reserve l keys now).limiter
step l (now, completes keys kind cleared) = complete_locked l keys kind cleared now
step l (now, resets keys) = reset l keys now

pub run : AttemptLimiter → List (ℕ × Call) → AttemptLimiter
unfolding step
run l [] = l
run l (c ∷ cs) = run (step l c) cs

pub complete_locked-IsWithinBudget :
    (l : AttemptLimiter) (keys : List String) (kind : CompletionKind) (cleared : List String)
    (now : ℕ)
    → IsWithinBudget l
    → IsWithinBudget (complete_locked l keys kind cleared now)
unfolding complete_locked
complete_locked-IsWithinBudget l keys kind cleared now v = record {
  positive = v.positive;
  entries_sound =
      complete_keys-IsSound l.config l.capacity now kind cleared (normalized_limit_keys keys)
        l.entries v.entries_sound;
}

pub step-IsWithinBudget :
    (l : AttemptLimiter) (c : ℕ × Call) → IsWithinBudget l → IsWithinBudget (step l c)
unfolding step reserve reset
step-IsWithinBudget l (now, reserves keys) v =
    (reserve_keys-IsFair l (normalized_limit_keys keys) now (normalized_limit_keys-AreOnce keys)
      v).budget
step-IsWithinBudget l (now, completes keys kind cleared) v =
    complete_locked-IsWithinBudget l keys kind cleared now v
step-IsWithinBudget l (now, resets keys) v = record {
  positive = v.positive;
  entries_sound =
      reset_keys-IsSound l.config l.capacity now (normalized_limit_keys keys) l.entries
        v.entries_sound;
}

run-IsWithinBudget :
    (l : AttemptLimiter) (cs : List (ℕ × Call)) → IsWithinBudget l → IsWithinBudget (run l cs)
unfolding run
run-IsWithinBudget l [] v = v
run-IsWithinBudget l (c ∷ cs) v = run-IsWithinBudget (step l c) cs (step-IsWithinBudget l c v)

pub new_attempt_limiter-IsWithinBudget :
    (given : AttemptLimit) (l : AttemptLimiter)
    → new_attempt_limiter given ≡ some l
    → IsWithinBudget l
unfolding new_attempt_limiter
new_attempt_limiter-IsWithinBudget given l e = ground arith

-- From a limiter that the constructor accepts, after any sequence of reservations, completions and
-- resets at any times, each entry holds at most `maximum` failures and attempts in flight together,
-- a block has no failures beside it, no idle entry is kept, no key stands twice, and there are at
-- most `capacity` entries.
pub run_from_new :
    (given : AttemptLimit) (l : AttemptLimiter) (cs : List (ℕ × Call))
    → new_attempt_limiter given ≡ some l
    → IsWithinBudget (run l cs)
run_from_new given l cs e = run-IsWithinBudget l cs (new_attempt_limiter-IsWithinBudget given l e)
