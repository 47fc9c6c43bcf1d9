-- ===== src/Limiter/Reserve.antt =====
-- `Reserve` and `ensureCapacity`.
use gu_gu_manager.Base.{
  ℕ, ◌+◌, ◌-◌, max, String, Bool, true, false, not, ◌||◌, Option, none, some, List, [], ◌∷◌, ltb,
  leb, ◌==◌, if◌then◌else◌, is_some, length, take, contains,
}
use gu_gu_manager.Base.Maps.{Assoc, lookup, insert, remove}
use gu_gu_manager.Limiter.State.{
  AttemptLimit, AttemptState, AttemptLimiter, zero_state, second, is_idle, prune, retry_after,
}
use gu_gu_manager.Limiter.Keys.{normalized_limit_keys}

-- `limiter` is the receiver of the call that made it; `is_done` is the state of `once`.
pub record AttemptReservation : Type 0 where
  pub keys : List String
  pub is_done : Bool

pub record Admission : Type 0 where
  pub limiter : AttemptLimiter
  pub reservation : Option AttemptReservation
  pub allowed : Bool
  pub retry_after : ℕ

pub record Candidate : Type 0 where
  pub key : String
  pub at : ℕ

-- The entries after the checks so far, and `maxRetryAfter`.
pub record Checked : Type 0 where
  pub entries : Assoc AttemptState
  pub max_retry_after : ℕ

module _ (config : AttemptLimit) (now : ℕ) where
  -- One round of the first loop of `Reserve`, for an entry that is there.
  unfoldable pub check_state : String → AttemptState → Checked → Checked
  unfolding is_idle
  check_state key s c = if is_idle s then record c { entries = remove key c.entries } else record {
    entries = insert key s c.entries;
    max_retry_after = max (retry_after config s now) c.max_retry_after;
  }

  unfoldable pub check_key : String → Checked → Checked
  unfolding check_state
  check_key key c = elim (lookup key c.entries) [
    | none ↦ c
    | some s ↦ check_state key (prune config s now) c
  ]

  unfoldable pub check_keys : List String → Checked → Checked
  check_keys [] c = c
  check_keys (key ∷ keys) c = check_keys keys (check_key key c)

  -- `range l.entries` with `storeOrDelete` of the entry that is visited.
  unfoldable pub prune_entries : Assoc AttemptState → Assoc AttemptState
  unfolding is_idle
  prune_entries [] = []
  prune_entries ((key, s) ∷ m) =
      let rest = prune_entries m in
      if is_idle (prune config s now) then rest else (key, prune config s now) ∷ rest

module _ (now : ℕ) where
  -- The record of an admitted key; the map gives the zero state for a key that is not there.
  unfoldable pub admitted : Option AttemptState → AttemptState
  admitted none = record zero_state { in_flight = zero_state.in_flight + 1; last_activity = now }
  admitted (some s) = record s { in_flight = s.in_flight + 1; last_activity = now }

  -- One round of the last loop of `Reserve`.
  unfoldable pub admit_key : String → Assoc AttemptState → Assoc AttemptState
  unfolding admitted
  admit_key key m = insert key (admitted (lookup key m)) m

  unfoldable pub admit_keys : List String → Assoc AttemptState → Assoc AttemptState
  admit_keys [] m = m
  admit_keys (key ∷ keys) m = admit_keys keys (admit_key key m)

unfoldable pub missing : List String → Assoc AttemptState → ℕ
missing [] m = 0
missing (key ∷ keys) m = (if is_some (lookup key m) then 0 else 1) + missing keys m

-- `lastActivity`, or `lastFailure` if that is zero.
unfoldable pub candidate_at : AttemptState → ℕ
candidate_at s = if s.last_activity == 0 then s.last_failure else s.last_activity

unfoldable pub candidates : List String → Assoc AttemptState → List Candidate
candidates requested [] = []
candidates requested ((key, s) ∷ m) =
    let rest = candidates requested m in
    if contains key requested || ltb 0 s.in_flight || not (s.blocked_until == 0)
    then rest
    else record { key = key; at = candidate_at s } ∷ rest

-- `sort.Slice` by `at`. Go leaves the order of equal times open, as it does that of the map.
unfoldable pub insert_candidate : Candidate → List Candidate → List Candidate
insert_candidate c [] = c ∷ []
insert_candidate c (d ∷ ds) = if leb c.at d.at then c ∷ d ∷ ds else d ∷ insert_candidate c ds

unfoldable pub sort_candidates : List Candidate → List Candidate
unfolding insert_candidate
sort_candidates [] = []
sort_candidates (c ∷ cs) = insert_candidate c (sort_candidates cs)

unfoldable pub delete_candidates : List Candidate → Assoc AttemptState → Assoc AttemptState
delete_candidates [] m = m
delete_candidates (c ∷ cs) m = delete_candidates cs (remove c.key m)

-- What `ensureCapacity` does with the pruned entries.
unfoldable pub make_room :
    AttemptLimit → List String → Assoc AttemptState → Assoc AttemptState × Bool
make_room config requested m =
    if leb (length m + missing requested m) config.capacity
    then (m, true)
    else if ltb (length found) excess
    then (m, false)
    else (delete_candidates (take excess (sort_candidates found)) m, true)
  where
    found : List Candidate
    found = candidates requested m

    excess : ℕ
    excess = length m + missing requested m - config.capacity

unfoldable pub ensure_capacity :
    AttemptLimit → List String → ℕ → Assoc AttemptState → Assoc AttemptState × Bool
ensure_capacity config requested now m = make_room config requested (prune_entries config now m)

-- The end of `Reserve`, with the answer of `ensureCapacity`.
unfoldable pub conclude : AttemptLimiter → List String → ℕ → Assoc AttemptState × Bool → Admission
conclude l keys now (m, false) = record {
  limiter = record l { entries = m };
  reservation = none;
  allowed = false;
  retry_after = second;
}
conclude l keys now (m, true) = record {
  limiter = record l { entries = admit_keys now keys m };
  reservation = some (record { keys = keys; is_done = false });
  allowed = true;
  retry_after = 0;
}

-- `Reserve` under the lock, after its first loop.
unfoldable pub reserve_checked : AttemptLimiter → List String → ℕ → Checked → Admission
unfolding conclude
reserve_checked l keys now checked =
    if ltb 0 checked.max_retry_after
    then record {
      limiter = record l { entries = checked.entries };
      reservation = none;
      allowed = false;
      retry_after = checked.max_retry_after;
    }
    else conclude l keys now (ensure_capacity l.config keys now checked.entries)

unfoldable pub reserve_keys : AttemptLimiter → List String → ℕ → Admission
reserve_keys l [] now = record {
  limiter = l;
  reservation = some (record { keys = []; is_done = false });
  allowed = true;
  retry_after = 0;
}
reserve_keys l (k ∷ ks) now =
    reserve_checked l (k ∷ ks) now
      (check_keys l.config now (k ∷ ks) (record { entries = l.entries; max_retry_after = 0 }))

unfoldable pub reserve : AttemptLimiter → List String → ℕ → Admission
reserve l keys now = reserve_keys l (normalized_limit_keys keys) now
